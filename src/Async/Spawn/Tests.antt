-- ===== src/Async/Spawn/Tests.antt =====
-- Two threads end a task while a third asks for its cancellation.
use ngx_rust.Prelude.{put, zero, suc, ℕ, ◌≡◌, refl, Bool, true, false, List, [], ◌∷◌, none, some}
use ngx_rust.Async.Spawn.Control.{
  Thread, load, request_cancel, fail_scheduler, finish, ready, canceled, cancel_requested, new,
  from_raw, as_raw, desired, advance, exchange, exchanged, Operation, wake, set_waker,
}
use ngx_rust.Async.Spawn.Control.Terminal.{is_terminal, IsValid}
use ngx_rust.Async.Spawn.Control.Interleaving.{System, run, turn, run-agrees}
use ngx_rust.Async.Spawn.Task.{Task}
use ngx_rust.Async.Spawn.Scheduler as Sched
use ngx_rust.Async.Spawn.Scheduler.{Scheduler, begin_processing, finish_processing, stopping}
use ngx_rust.Async.Spawn.Scheduler.Wakes.{
  Wake, wakes, cancels, wake_all, all_deferred, finish_processing-wake_all,
}
use ngx_rust.Async.Spawn.Scheduler.Conserve.{
  Step, schedules, stops, Ledger, accounted, steps, steps-accounted,
}
use ngx_rust.Async.Spawn.Control.Wakeup.{
  Polled, idle, moves, move, poll_turn, thread, poll_with, IsHeard, moves-IsHeard, Move,
}

-- The first thread asks for cancellation, the others finish with success.
abbrev operations : ℕ → Thread
operations zero = load request_cancel
operations (suc i) = load (finish ready)

abbrev starts : (i : ℕ) → (op : Operation) × (operations i ≡ load op) × IsValid op
starts zero = (request_cancel, refl, tt)
starts (suc i) = (finish ready, refl, refl)

abbrev begin : System
begin = record { control = new; threads = operations }

-- The cancellation comes between the load and the exchange of the second thread.
abbrev order : List (ℕ × Bool)
order = (1, false) ∷ (0, false) ∷ (0, false) ∷ (1, false) ∷ (1, true) ∷ (1, false) ∷ (1, false) ∷ []

run-agrees_example : (is_terminal canceled ≡ true) × ((run order begin).control.status ≡ canceled)
unfolding run turn put advance exchange exchanged desired from_raw as_raw wake
run-agrees_example = run-agrees order begin 1 (finish ready) canceled starts refl refl

abbrev begin_canceled : System
begin_canceled = record begin { control = record new { status = canceled } }

abbrev begin_requested : System
begin_requested = record begin { control = record new { status = cancel_requested } }

abbrev nine_turns : List (ℕ × Bool)
nine_turns =
    (2, false)
    ∷ (2, false)
    ∷ (0, false)
    ∷ (2, false)
    ∷ (2, false)
    ∷ (2, false)
    ∷ (2, false)
    ∷ (2, false)
    ∷ (2, false)
    ∷ (2, false)
    ∷ []

-- The task is failed between a poll's two looks at the status and once more after it.
abbrev polled : Polled
polled = record {
  system = record { control = new; threads = λ i. load fail_scheduler };
  poll = idle;
}

abbrev poll_moves : List Move
poll_moves = poll_with 7 ∷ poll_with 7 ∷ thread 0 false ∷ poll_with 7 ∷ thread 0 false ∷ []

moves-IsHeard_example : IsHeard 7 (moves poll_moves polled).system
unfolding moves move turn put poll_turn set_waker advance exchange exchanged desired from_raw as_raw
moves-IsHeard_example = moves-IsHeard poll_moves polled 7 refl refl refl

-- A runner whose task was asked to cancel while its future became ready.
abbrev task : Task ℕ
task = record {
  control = record new { status = cancel_requested; waker = some 3 };
  result = none;
  attached = true;
  completed = false;
  reported = false;
  live_tasks = 2;
}

-- The worker, thread 4, had one runnable queued.
abbrev queued : Scheduler
queued = record (Sched.new 4) { queue = 10 ∷ [] }

abbrev wakes_then : List Wake
wakes_then = wakes 5 11 ∷ cancels 6 20 ∷ wakes 4 12 ∷ []

abbrev took : List ℕ × List ℕ
took = ([], 10 ∷ [])

abbrev begun : Scheduler
begun = record queued { processing = true; queue = [] }

finish_processing-wake_all_example :
    (took ≡ (queued.cancellations, queued.queue))
    × (all_deferred wakes_then begun ≡ true)
    × ((wake_all wakes_then begun).queue ≡ 11 ∷ 12 ∷ [])
    × ((wake_all wakes_then begun).cancellations ≡ 20 ∷ [])
    × ((finish_processing 4 (wake_all wakes_then begun)).0 ≡ true)
unfolding begin_processing
finish_processing-wake_all_example = finish_processing-wake_all 4 queued begun took wakes_then refl

-- A foreign wake that fails to reach the worker, then one that comes too late, then the stop.
abbrev story : List Step
story = schedules 5 11 false ∷ schedules 6 12 true ∷ stops ∷ []

abbrev ledger : Ledger
ledger = record { scheduler = queued; taken = [] }

steps-accounted_example : accounted 12 (steps story ledger) ≡ 1
steps-accounted_example = steps-accounted 12 story ledger

abbrev closed : Ledger
closed = record ledger { scheduler = record queued { phase = stopping; queue = [] } }
