-- ===== src/Event/Timer.antt =====
-- src/event/timer.rs, outside a callback: an owned timer and the operations on it. nginx's
-- `ngx_add_timer` and `ngx_del_timer` are functions on the event, which the model takes.
mod Tests
pub mod Callback
pub mod Deferred
use ngx_rust.Prelude.{
  ℕ, zero, suc, ◌+◌, ◌%◌, ◌^◌, ◌≡◌, Bool, true, false, not, Option, none, some, ◌==◌, if◌then◌else◌,
  Result, ok, err, ◌>>=◌, ◌>>◌, fail_if,
}

pub data TimerError : Type 0 where
  already_armed : TimerError

-- The fields of `ngx_event_t` that a timer uses, `timer.key` as `key`: a time, modulo
-- 2 ^ 64.
pub record Event : Type 0 where
  pub timer_set : Bool
  pub timedout : Bool
  pub cancelable : Bool
  pub key : ℕ

pub record Api : Type 0 where
  pub add_timer : ℕ → Event → Event
  pub del_timer : Event → Event

-- What nginx documents, of an event that is not set and of one that is.
pub record IsApi (now : ℕ) (api : Api) : Type 0 where
  pub sets :
      (timeout : ℕ) (e : Event)
      → e.timer_set ≡ false
      → api.add_timer timeout e ≡ record e { timer_set = true; key = (now + timeout) % 2 ^ 64 }
  pub unsets : (e : Event) → e.timer_set ≡ true → (api.del_timer e).timer_set ≡ false
  pub keeps_timedout : (e : Event) → e.timer_set ≡ true → (api.del_timer e).timedout ≡ e.timedout
  pub keeps_cancelable :
      (e : Event) → e.timer_set ≡ true → (api.del_timer e).cancelable ≡ e.cancelable

-- `Timer::new` zeroes the event.
unfoldable pub new : Event
new = record { timer_set = false; timedout = false; cancelable = false; key = 0 }

unfoldable pub set_cancelable : Bool → Event → Event
set_cancelable b e = record e { cancelable = b }

unfoldable pub take_timeout : Event → Bool × Event
take_timeout e = if not e.timedout then (false, e) else (true, record e { timedout = false })

module _ (api : Api) where
  unfoldable pub arm : ℕ → Event → Result TimerError Event
  arm timeout e =
      if e.timer_set
      then err already_armed
      else ok (api.add_timer timeout (record e { timedout = false }))

  -- `if event.timer_set() != 0 { ngx_del_timer(event) }`.
  abbrev pub disarm : Event → Event
  disarm e = if e.timer_set then api.del_timer e else e

  unfoldable pub rearm : ℕ → Event → Event
  rearm timeout e = let e' = disarm e in api.add_timer timeout (record e' { timedout = false })

  unfoldable pub cancel : Event → Bool × Event
  cancel e = if not e.timer_set then (false, e) else (true, api.del_timer e)
