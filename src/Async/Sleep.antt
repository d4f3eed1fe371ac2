-- ===== src/Async/Sleep.antt =====
-- src/async_/sleep.rs: a future that sleeps on an owned timer, in as many steps as nginx's timer
-- values need. The timer is that of Event/Timer; time is the worker's clock in milliseconds.
pub mod Elapsed
pub mod Prompt
mod Tests
use ngx_rust.Prelude.{
  ℕ, zero, suc, ◌+◌, ◌-◌, ◌*◌, ◌/◌, ◌%◌, ◌^◌, ◌≤◌, ◌≡◌, Bool, true, false, Option, none, some, ltb,
  leb, ◌==◌, if◌then◌else◌, Result, ok, err,
}
use ngx_rust.Event.Timer.{Event, Api, TimerError, take_timeout, set_cancelable, arm}

-- `Duration`: whole seconds, and nanoseconds below 10 ^ 9.
pub record Duration : Type 0 where
  pub seconds : ℕ
  pub nanoseconds : ℕ

unfoldable pub duration_to_milliseconds_ceil : Duration → ℕ
duration_to_milliseconds_ceil d =
    let milliseconds = d.seconds * 1000 + d.nanoseconds / 1000000 in
    if d.nanoseconds % 1000000 == 0 then milliseconds else milliseconds + 1

-- `ngx_msec_int_t::MAX`.
abbrev pub timer_duration_max : ℕ
timer_duration_max = 2 ^ 63 - 1

unfoldable pub bounded_milliseconds : ℕ → ℕ → Option ℕ
bounded_milliseconds remaining maximum =
    if remaining == 0 then none else some (if ltb maximum remaining then maximum else remaining)

-- The answer of `timer_step`: none, the milliseconds with the timeout, which is the same number, or
-- the panic of a conversion to `ngx_msec_t` that fails.
pub data TimerStep : Type 0 where
  is_over does_not_fit : TimerStep
  steps : ℕ → TimerStep

abbrev fitting : Option ℕ → TimerStep
fitting none = is_over
fitting (some milliseconds) = if ltb milliseconds (2 ^ 64) then steps milliseconds else does_not_fit

unfoldable pub timer_step : ℕ → TimerStep
timer_step remaining = fitting (bounded_milliseconds remaining timer_duration_max)

pub record Sleep : Type 0 where
  pub event : Event
  pub waker : Option ℕ
  pub remaining : ℕ
  pub armed : ℕ

pub data Poll : Type 0 where
  is_ready is_pending panics : Poll

-- `sleep_timer_callback`: the waker is taken, and woken.
unfoldable pub sleep_timer_callback : Sleep → Option ℕ × Sleep
sleep_timer_callback s = (s.waker, record s { waker = none })

module _ (api : Api) where
  abbrev armed_at : ℕ → Sleep → Result TimerError Event → Poll × Sleep
  armed_at milliseconds s (err e) = (panics, s)
  armed_at milliseconds s (ok e) = (is_pending, record s { event = e; armed = milliseconds })

  abbrev step_at : ℕ → Sleep → TimerStep → Poll × Sleep
  step_at k s is_over = (is_ready, s)
  step_at k s does_not_fit = (panics, s)
  step_at k s (steps milliseconds) =
      let s' = record s { waker = some k; event = set_cancelable true s.event } in
      armed_at milliseconds s' (arm api milliseconds s'.event)

  -- What follows the timeout's test.
  unfoldable pub wait : ℕ → Sleep → Poll × Sleep
  wait k s =
      if s.event.timer_set
      then (is_pending, record s { waker = some k })
      else step_at k s (timer_step s.remaining)

  abbrev elapsed_at : ℕ → Sleep → Poll × Sleep
  elapsed_at k s =
      if ltb s.remaining s.armed
      then (panics, record s { armed = 0 })
      else (let s' = record s { remaining = s.remaining - s.armed; armed = 0 } in
          if s'.remaining == 0 then (is_ready, s') else wait k s')

  -- `Sleep::poll`, with the waker of its context.
  unfoldable pub poll : ℕ → Sleep → Poll × Sleep
  poll k s =
      let (timed_out, e) = take_timeout s.event in
      let s' = record s { event = e } in
      if s.remaining == 0 then (is_ready, s) else (if timed_out then elapsed_at k s' else wait k s')
