-- ===== src/Async/Spawn/Scheduler/Stopped.antt =====
-- src/async_/spawn/scheduler.rs: the phases of a scheduler.
use ngx_rust.Prelude.{◌≡◌, refl, Bool, true, false, List, [], ◌∷◌, arith, ◌==◌}
use ngx_rust.Async.Spawn.Scheduler.{
  Scheduler, queue, cancellation, begin_processing, finish_processing, is_running, schedule,
  stop_and_drop, drain_for_shutdown, fail_from_foreign_thread, quarantine, handoff,
  register_task_lifetime, release_task_lifetime, finish_shutdown,
}
use ngx_rust.Async.Spawn.Scheduler.Conserve.{
  Step, schedules, cancels, processes, fails, stops, passes, registers, releases, ends, Ledger,
  step, steps,
}

-- A scheduler that has stopped accepting work, and what it then queues.
abbrev pub IsClosed : Scheduler → Type 0
IsClosed s = (is_running s.phase ≡ false) × (s.queue ≡ [])

step-IsClosed : (t : Step) (l : Ledger) → IsClosed l.scheduler → IsClosed (step t l).scheduler
unfolding step schedule queue cancellation begin_processing finish_processing stop_and_drop
    drain_for_shutdown fail_from_foreign_thread quarantine handoff register_task_lifetime
    release_task_lifetime finish_shutdown
step-IsClosed (schedules current r delivered) l h = by_owner (l.scheduler.owner == current) refl
  where
    by_owner :
        (b : Bool)
        → (l.scheduler.owner == current) ≡ b
        → IsClosed (schedule current r delivered l.scheduler)
    by_owner true e = ground arith
    by_owner false e = ground arith
step-IsClosed (cancels current c) l h = ground arith
step-IsClosed (processes current) l h = ground arith
step-IsClosed fails l h = ground arith
step-IsClosed stops l h = ground arith
step-IsClosed passes l h = ground arith
step-IsClosed registers l h = h
step-IsClosed releases l h = h
step-IsClosed ends l h = ground arith

-- A scheduler that stopped accepting work, with an empty queue, never runs or queues again,
-- whatever wakes, cancellations, stops and hand-offs follow.
pub steps-IsClosed :
    (ts : List Step) (l : Ledger) → IsClosed l.scheduler → IsClosed (steps ts l).scheduler
unfolding steps
steps-IsClosed [] l h = h
steps-IsClosed (t ∷ ts) l h = steps-IsClosed ts (step t l) (step-IsClosed t l h)
