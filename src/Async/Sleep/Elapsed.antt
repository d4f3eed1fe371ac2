-- ===== src/Async/Sleep/Elapsed.antt =====
-- src/async_/sleep.rs: a sleep ends, and not before its time.
use ngx_rust.Prelude.{
  ℕ, suc, ◌+◌, ◌-◌, ◌*◌, ◌%◌, ◌^◌, ◌≤◌, ◌<◌, ◌≡◌, ◌≢◌, inl, inr, true, false, none, some, ltb,
  if◌then◌else◌, arith, Bool-cases,
}
use ngx_rust.Event.Timer.{Api, IsApi, new, take_timeout, set_cancelable, arm}
use ngx_rust.Async.Sleep.{
  Duration, Sleep, Poll, is_ready, is_pending, panics, duration_to_milliseconds_ceil,
  timer_duration_max, timer_step, bounded_milliseconds, sleep_timer_callback, wait, poll,
}

-- The milliseconds of a sleep are the least that cover its duration.
pub duration_to_milliseconds_ceil-covers :
    (d : Duration)
    → (d.seconds * 1000000000 + d.nanoseconds ≤ duration_to_milliseconds_ceil d * 1000000)
      × (duration_to_milliseconds_ceil d * 1000000
          < d.seconds * 1000000000 + d.nanoseconds + 1000000)
unfolding duration_to_milliseconds_ceil
duration_to_milliseconds_ceil-covers d = ground arith

-- A sleep, the clock, and what its last poll answered.
pub record World : Type 0 where
  pub sleep : Sleep
  pub now : ℕ
  pub answer : Poll

-- `Sleep::new`.
abbrev pub start : ℕ → Duration → World
start now d = record {
  sleep = record {
    event = new;
    waker = none;
    remaining = duration_to_milliseconds_ceil d;
    armed = 0;
  };
  now = now;
  answer = is_pending;
}

-- nginx expires a timer: the event is no longer set, and timed out.
abbrev pub expired_sleep : Sleep → Sleep
expired_sleep s = record s { event = record s.event { timer_set = false; timedout = true } }

abbrev pub expire : World → World
expire w = record w { sleep = (sleep_timer_callback (expired_sleep w.sleep)).1 }

-- nginx compares a timer's key with its clock as signed numbers of 64 bits: what is left is their
-- difference while that is positive.
abbrev signed_left : ℕ → ℕ
signed_left difference = if ltb difference (2 ^ 63) then difference else 0

abbrev pub left_of : ℕ → ℕ → ℕ
left_of key now = signed_left ((key + (2 ^ 64 - now % 2 ^ 64)) % 2 ^ 64)

pub left_of-sum :
    (now timeout : ℕ) → timeout < 2 ^ 63 → left_of ((now + timeout) % 2 ^ 64) now ≡ timeout
left_of-sum now timeout lt =
    let d : ((now + timeout) % 2 ^ 64 + (2 ^ 64 - now % 2 ^ 64)) % 2 ^ 64 ≡ timeout = omega arith in
    ground (arith, d)

-- As the clock goes on by `d`, no more than `d` is gone of what is left.
pub left_of-later : (key now d : ℕ) → left_of key now ≤ d + left_of key (now + d)
left_of-later key now d =
    let x = (key + (2 ^ 64 - now % 2 ^ 64)) % 2 ^ 64 in
    let y = (key + (2 ^ 64 - (now + d) % 2 ^ 64)) % 2 ^ 64 in
    let near : x ≤ d + y = omega arith in
    let past : (x < 2 ^ 63) → (2 ^ 63 ≤ y) → x ≤ d = λ h k. omega arith in
    ground (arith, near, past)

abbrev polled : World → Poll × Sleep → World
polled w (p, s) = record w { sleep = s; answer = p }

abbrev pub least : ℕ → ℕ
least n = if ltb timer_duration_max n then timer_duration_max else n

pub least-bounds :
    (n : ℕ)
    → (least n ≤ n)
      × ((m : ℕ) → n ≤ suc m * timer_duration_max → n - least n ≤ m * timer_duration_max)
least-bounds n = (ground arith, λ m h. ground arith)

pub least-small : (n : ℕ) → least n < 2 ^ 63
least-small n = ground arith

module _ (api : ℕ → Api) where
  abbrev pub poll_world : ℕ → World → World
  poll_world k w = polled w (poll (api w.now) k w.sleep)

  pub data Step : World → World → Type 0 where
    polls : {w : World} (k : ℕ) → Step w (poll_world k w)
    expires :
        {w : World}
        → w.sleep.event.timer_set ≡ true
        → left_of w.sleep.event.key w.now ≡ 0
        → Step w (expire w)
    passes : {w : World} (d : ℕ) → Step w (record w { now = w.now + d })

  pub data Reach (w : World) : World → Type 0 where
    here : Reach w w
    later : {v u : World} → Reach w v → Step v u → Reach w u

  -- The time that is left, seen from `origin`, on each of the timer's states.
  pub record IsSound (origin total : ℕ) (w : World) : Type 0 where
    pub bounded : w.sleep.armed ≤ w.sleep.remaining
    pub idle :
        w.sleep.event.timer_set ≡ false
        → w.sleep.event.timedout ≡ false
        → (w.sleep.armed ≡ 0) × (origin + total ≤ w.now + w.sleep.remaining)
    pub waits :
        w.sleep.event.timer_set ≡ true
        → (w.sleep.event.timedout ≡ false)
          × (origin + total + w.sleep.armed
              ≤ w.now + left_of w.sleep.event.key w.now + w.sleep.remaining)
    pub busy : w.sleep.event.timer_set ≡ true → w.sleep.remaining ≢ 0
    pub fired :
        w.sleep.event.timedout ≡ true → origin + total + w.sleep.armed ≤ w.now + w.sleep.remaining
    pub answered : w.answer ≡ is_ready → origin + total ≤ w.now
    pub calm : w.answer ≢ panics

  -- A timer that is not set is set for the next step.
  pub wait-idle :
      (laws : (now : ℕ) → IsApi now (api now)) (now k : ℕ) (s : Sleep)
      → s.event.timer_set ≡ false
      → s.remaining ≢ 0
      → wait (api now) k s ≡ (
        is_pending,
        record {
          event = record {
            timer_set = true;
            timedout = false;
            cancelable = true;
            key = (now + least s.remaining) % 2 ^ 64;
          };
          waker = some k;
          remaining = s.remaining;
          armed = least s.remaining;
        },
      )
  unfolding wait set_cancelable arm timer_step bounded_milliseconds
  wait-idle laws now k s t r = ground (
    arith,
    (laws now).sets (least s.remaining) (record s.event { timedout = false; cancelable = true }),
  )

  wait-IsSound :
      (laws : (now : ℕ) → IsApi now (api now)) (origin total k : ℕ) (w : World)
      → w.sleep.remaining ≢ 0
      → IsSound origin total w
      → w.sleep.event.timedout ≡ false
      → IsSound origin total (polled w (wait (api w.now) k w.sleep))
  wait-IsSound laws origin total k w r s e = elim (Bool-cases w.sleep.event.timer_set) [
    | inl t ↦ (unfold wait in ground arith)
    | inr t ↦
        let left = left_of-sum w.now (least w.sleep.remaining) (least-small w.sleep.remaining) in
        rw (wait-idle laws w.now k w.sleep t r) (ground (arith, left))
  ]

  Step-IsSound :
      (laws : (now : ℕ) → IsApi now (api now)) (origin total : ℕ) {w u : World}
      → Step w u
      → IsSound origin total w
      → IsSound origin total u
  unfolding poll take_timeout sleep_timer_callback
  Step-IsSound laws origin total {w} (polls k) s =
      let e = record w.sleep.event { timedout = false } in
      let left = record w.sleep {
        event = e;
        remaining = w.sleep.remaining - w.sleep.armed;
        armed = 0;
      } in
      let same = record w.sleep { event = e } in
      ground (
        arith,
        wait-IsSound laws origin total k (record w { sleep = left }),
        wait-IsSound laws origin total k (record w { sleep = same }),
      )
  Step-IsSound laws origin total (expires t l) s = ground arith
  Step-IsSound laws origin total {w} (passes d) s =
      ground (arith, left_of-later w.sleep.event.key w.now d)

  start-IsSound :
      (now : ℕ) (d : Duration) → IsSound now (duration_to_milliseconds_ceil d) (start now d)
  unfolding new
  start-IsSound now d = ground arith

  Reach-IsSound :
      (laws : (now : ℕ) → IsApi now (api now)) (now : ℕ) (d : Duration) {w : World}
      → Reach (start now d) w
      → IsSound now (duration_to_milliseconds_ceil d) w
  Reach-IsSound laws now d here = start-IsSound now d
  Reach-IsSound laws now d (later r st) =
      Step-IsSound laws now (duration_to_milliseconds_ceil d) st (Reach-IsSound laws now d r)

  -- Whenever its timer expires and it is polled, a sleep never panics, and it answers `Ready` only
  -- when at least its duration has passed since its start.
  pub Reach-not_early :
      (laws : (now : ℕ) → IsApi now (api now)) (now : ℕ) (d : Duration) {w : World}
      → Reach (start now d) w
      → (w.answer ≢ panics)
        × (w.answer ≡ is_ready
            → now * 1000000 + d.seconds * 1000000000 + d.nanoseconds ≤ w.now * 1000000)
  Reach-not_early laws now d reached =
      let s = Reach-IsSound laws now d reached in
      (s.calm, λ e. omega (arith, s.answered e, duration_to_milliseconds_ceil-covers d))
