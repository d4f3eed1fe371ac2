-- ===== src/Async/Spawn/Notification/Tests.antt =====
-- src/async_/spawn/scheduler.rs, notification.rs: two threads wake the worker 0, and the second finds
-- the flag set before the first has sent.
use ngx_rust.Prelude.{ℕ, ◌≡◌, ◌<◌, ◌⊎◌, refl, arith, true, false, List, [], ◌∷◌, put}
use ngx_rust.Async.Spawn.Scheduler as Sched
use ngx_rust.Async.Spawn.Scheduler.{queue, accepted, begin_processing, finish_processing}
use ngx_rust.Async.Spawn.Notification.{
  System, Move, sender, call, worker, run_readable, reached, interrupted, runnable, returned,
  resting, sender_turn, worker_turn, send_notification, drain_notification, turn, run,
}
use ngx_rust.Async.Spawn.Notification.Steps.{awaits, attends, hurries}
use ngx_rust.Async.Spawn.Notification.Attended.{run-attended}

abbrev begin : System
begin = record {
  scheduler = Sched.new 0;
  pending = false;
  connected = true;
  datagrams = 0;
  posted = false;
  worker = resting;
  senders = λ i. returned;
}

abbrev wakes : List Move
wakes =
    call 1 (runnable 11)
    ∷ call 2 (runnable 12)
    ∷ sender 1 reached
    ∷ sender 2 reached
    ∷ sender 1 reached
    ∷ sender 2 reached
    ∷ sender 1 interrupted
    ∷ []

run-attended_example :
    ((run 4 wakes begin).posted ≡ true)
    ⊎ ((0 < (run 4 wakes begin).datagrams)
        ⊎ ((attends (run 4 wakes begin).worker ≡ true)
            ⊎ ((i : ℕ) × (hurries ((run 4 wakes begin).senders i) ≡ true))))
unfolding run turn sender_turn send_notification queue accepted put
run-attended_example = run-attended 4 wakes begin (omega arith) refl refl refl refl refl refl

-- The datagram makes the worker take both runnables.
abbrev delivered : List Move
delivered =
    call 1 (runnable 11)
    ∷ call 2 (runnable 12)
    ∷ sender 1 reached
    ∷ sender 2 reached
    ∷ sender 1 reached
    ∷ sender 2 reached
    ∷ sender 1 reached
    ∷ run_readable true
    ∷ worker reached
    ∷ worker reached
    ∷ worker reached
    ∷ worker reached
    ∷ worker reached
    ∷ []

run-delivered :
    (awaits (run 4 delivered begin).scheduler ≡ false)
    × ((run 4 delivered begin).pending ≡ false)
    × ((run 4 delivered begin).datagrams ≡ 0)
    × ((run 4 delivered begin).worker ≡ resting)
unfolding run turn sender_turn worker_turn send_notification drain_notification queue accepted
    begin_processing finish_processing put
run-delivered = (refl, refl, refl, refl)
