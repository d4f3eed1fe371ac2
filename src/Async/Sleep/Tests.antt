-- ===== src/Async/Sleep/Tests.antt =====
-- A sleep of a millisecond and a half.
use ngx_rust.Prelude.{ℕ, ◌+◌, ◌*◌, ◌%◌, ◌^◌, ◌≤◌, ◌≡◌, ◌≢◌, refl, true, false, arith}
use ngx_rust.Event.Timer.{Api, IsApi, new, take_timeout, set_cancelable, arm}
use ngx_rust.Async.Sleep.{
  Duration, is_ready, panics, duration_to_milliseconds_ceil, poll, wait, timer_step,
  bounded_milliseconds,
}
use ngx_rust.Async.Sleep.Elapsed.{
  World, start, expire, poll_world, Reach, here, later, polls, expires, passes, Reach-not_early,
}
use ngx_rust.Async.Sleep.Prompt.{rounds, rounds-start}

abbrev timers : ℕ → Api
timers now = record {
  add_timer = λ timeout e. record e { timer_set = true; key = (now + timeout) % 2 ^ 64 };
  del_timer = λ e. record e { timer_set = false };
}

timers-IsApi : (now : ℕ) → IsApi now (timers now)
timers-IsApi now = record {
  sets = λ timeout e h. refl;
  unsets = λ e h. refl;
  keeps_timedout = λ e h. refl;
  keeps_cancelable = λ e h. refl;
}

abbrev nap : Duration
nap = record { seconds = 0; nanoseconds = 1500000 }

rounds-start_example :
    ((rounds timers 7 2 (start 100 nap)).answer ≡ is_ready)
    × ((rounds timers 7 2 (start 100 nap)).now ≡ 100 + duration_to_milliseconds_ceil nap)
unfolding duration_to_milliseconds_ceil
rounds-start_example = rounds-start timers 7 timers-IsApi 1 100 nap (omega arith)

-- Polled, left for two milliseconds, expired and polled again.
abbrev rested : World
rested =
    let w = poll_world timers 7 (start 100 nap) in
    poll_world timers 7 (expire (record w { now = w.now + 2 }))

reached : Reach timers (start 100 nap) rested
unfolding poll wait take_timeout set_cancelable arm timer_step bounded_milliseconds
    duration_to_milliseconds_ceil new
reached =
    later (later (later (later here (polls 7)) (passes 2)) (expires refl (omega arith))) (polls 7)

Reach-not_early_example :
    (rested.answer ≢ panics)
    × (rested.answer ≡ is_ready → 100 * 1000000 + 0 * 1000000000 + 1500000 ≤ rested.now * 1000000)
Reach-not_early_example = Reach-not_early timers timers-IsApi 100 nap reached
