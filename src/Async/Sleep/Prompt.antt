-- ===== src/Async/Sleep/Prompt.antt =====
-- src/async_/sleep.rs: a sleep whose timers expire on time ends on time.
use native.Mathlib.Decide.{dec_lt}
use ngx_rust.Prelude.{
  ℕ, zero, suc, ◌+◌, ◌-◌, ◌*◌, ◌%◌, ◌^◌, ◌≤◌, ◌<◌, ◌≡◌, ◌≢◌, refl, inl, inr, Bool, true, false,
  Option, none, some, ◌==◌, if◌then◌else◌, arith, Bool-cases, ==_iff, subst, sym, ap, ◌∙◌,
}
use ngx_rust.Event.Timer.{Api, IsApi, new, take_timeout}
use ngx_rust.Async.Sleep.{
  Duration, Sleep, Poll, is_ready, is_pending, panics, duration_to_milliseconds_ceil,
  timer_duration_max, sleep_timer_callback, poll,
}
use ngx_rust.Async.Sleep.Elapsed.{
  World, start, expire, expired_sleep, poll_world, least, left_of, left_of-sum, wait-idle,
  least-bounds, least-small,
}

abbrev after_poll : Poll → World → World → World
after_poll is_ready v next = v
after_poll is_pending v next = next
after_poll panics v next = v

abbrev is_waker : ℕ → Option ℕ → Bool
is_waker k none = false
is_waker k (some j) = j == k

-- The sleep that waits for its next step.
abbrev waiting : (ℕ → Api) → ℕ → ℕ → ℕ → Sleep
waiting api k now left = record {
  event = record {
    timer_set = true;
    timedout = false;
    cancelable = true;
    key = (now + least left) % 2 ^ 64;
  };
  waker = some k;
  remaining = left;
  armed = least left;
}

module _ (api : ℕ → Api) (k : ℕ) where
  -- When the timer `v` waits for has come.
  abbrev on_time : World → World
  on_time v = record v { now = v.now + left_of v.sleep.event.key v.now }

  -- The future is polled with the waker `k`, and polled again as soon as its timer has expired, if
  -- that has called this waker: otherwise it stays as it is. With fuel.
  unfoldable pub rounds : ℕ → World → World
  rounds zero w = w
  rounds (suc fuel) w =
      let v = poll_world api k w in
      let u = on_time v in
      let called = (sleep_timer_callback (expired_sleep u.sleep)).0 in
      let rest = rounds fuel (expire u) in
      after_poll v.answer v (if is_waker k called then rest else expire u)

  module _ (laws : (now : ℕ) → IsApi now (api now)) where
    poll-done :
        (w : World)
        → w.sleep.event.timedout ≡ true
        → w.sleep.armed ≡ w.sleep.remaining
        → ((poll_world api k w).answer ≡ is_ready) × ((poll_world api k w).now ≡ w.now)
    unfolding poll take_timeout
    poll-done w e a = ground arith

    poll-again :
        (w : World)
        → w.sleep.event.timer_set ≡ false
        → w.sleep.event.timedout ≡ true
        → w.sleep.armed < w.sleep.remaining
        → poll_world api k w ≡ record {
          sleep = waiting api k w.now (w.sleep.remaining - w.sleep.armed);
          now = w.now;
          answer = is_pending;
        }
    unfolding poll take_timeout
    poll-again w t e a =
        let s = record w.sleep {
          event = record w.sleep.event { timedout = false };
          remaining = w.sleep.remaining - w.sleep.armed;
          armed = 0;
        } in
        ground (arith, wait-idle api laws w.now k s)

    -- A world whose timer has just expired.
    abbrev expired : ℕ → ℕ → ℕ → ℕ → World
    expired key now left step = record {
      sleep = record {
        event = record { timer_set = false; timedout = true; cancelable = true; key = key };
        waker = none;
        remaining = left;
        armed = step;
      };
      now = now;
      answer = is_pending;
    }

    abbrev Ends : ℕ → World → Type 0
    Ends at w = (w.answer ≡ is_ready) × (w.now ≡ at)

    -- One round, given what the poll leaves.
    abbrev round_of : ℕ → World → World
    round_of fuel v =
        let u = on_time v in
        let called = (sleep_timer_callback (expired_sleep u.sleep)).0 in
        let rest = rounds fuel (expire u) in
        after_poll v.answer v (if is_waker k called then rest else expire u)

    -- A sleep that waits is polled again when its step is over.
    round_of-waiting :
        (fuel now left : ℕ)
        → round_of fuel (record { sleep = waiting api k now left; now = now; answer = is_pending })
          ≡ rounds fuel (expired ((now + least left) % 2 ^ 64) (now + least left) left (least left))
    unfolding sleep_timer_callback
    round_of-waiting fuel now left =
        rw (left_of-sum now (least left) (least-small left), (==_iff k k).1 refl) refl

    round-done :
        (fuel key now left step : ℕ)
        → step ≤ left
        → left - step ≡ 0
        → Ends (now + (left - step)) (rounds (suc fuel) (expired key now left step))
    unfolding rounds
    round-done fuel key now left step a z =
        let (r, n) = poll-done (expired key now left step) refl (omega arith) in
        ground (arith, r, n)

    round-again :
        (fuel key now left step at : ℕ)
        → step < left
        → let rest = left - step in
          Ends at (
            rounds fuel
              (expired ((now + least rest) % 2 ^ 64) (now + least rest) rest (least rest)))
          → Ends at (rounds (suc fuel) (expired key now left step))
    unfolding rounds
    round-again fuel key now left step at below h =
        subst (λ (v : World). Ends at v)
          (sym (
            ap (round_of fuel) (poll-again (expired key now left step) refl refl below)
            ∙ round_of-waiting fuel now (left - step)))
          h

    rounds-expired :
        (fuel key now left step : ℕ)
        → step ≤ left
        → left - step ≤ fuel * timer_duration_max
        → Ends (now + (left - step)) (rounds (suc fuel) (expired key now left step))
    rounds-expired zero key now left step a b = round-done zero key now left step a (omega arith)
    rounds-expired (suc fuel) key now left step a b = elim (dec_lt step left) [
      | yes below ↦
          let rest = left - step in
          let (small, most) = least-bounds rest in
          round-again (suc fuel) key now left step (now + rest) below (
            let key' = (now + least rest) % 2 ^ 64 in
            subst
              (λ (n : ℕ).
                Ends n (rounds (suc fuel) (expired key' (now + least rest) rest (least rest))))
              (omega (arith, small))
              (rounds-expired fuel key' (now + least rest) rest (least rest) small (most fuel b)))
      | no above ↦ round-done (suc fuel) key now left step a (omega (arith, above))
    ]

    poll-start :
        (now : ℕ) (d : Duration)
        → duration_to_milliseconds_ceil d ≢ 0
        → poll_world api k (start now d) ≡ record {
          sleep = waiting api k now (duration_to_milliseconds_ceil d);
          now = now;
          answer = is_pending;
        }
    unfolding poll take_timeout new
    poll-start now d n = ground (arith, wait-idle api laws now k (start now d).sleep)

    -- With one round more than there are of nginx's largest timer values in it, a sleep whose timers
    -- expire on time, and that is polled again only by its waker, answers `Ready`, exactly when its
    -- milliseconds are over.
    pub rounds-start :
        (fuel now : ℕ) (d : Duration)
        → duration_to_milliseconds_ceil d ≤ fuel * timer_duration_max
        → ((rounds (suc fuel) (start now d)).answer ≡ is_ready)
          × ((rounds (suc fuel) (start now d)).now ≡ now + duration_to_milliseconds_ceil d)
    unfolding rounds sleep_timer_callback poll take_timeout new
    rounds-start zero now d b =
        let z : duration_to_milliseconds_ceil d ≡ 0 = omega (arith, b) in ground arith
    rounds-start (suc fuel) now d b = elim (Bool-cases (duration_to_milliseconds_ceil d == 0)) [
      | inl z ↦ ground arith
      | inr n ↦
          let left = duration_to_milliseconds_ceil d in
          let (small, most) = least-bounds left in
          let key = (now + least left) % 2 ^ 64 in
          subst (λ (v : World). Ends (now + left) v)
            (sym (
              ap (round_of (suc fuel)) (poll-start now d (ground arith))
              ∙ round_of-waiting (suc fuel) now left))
            (subst
              (λ (m : ℕ).
                Ends m (rounds (suc fuel) (expired key (now + least left) left (least left))))
              (omega (arith, small))
              (rounds-expired fuel key (now + least left) left (least left) small (most fuel b)))
    ]
