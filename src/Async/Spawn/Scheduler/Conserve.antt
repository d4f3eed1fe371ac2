-- ===== src/Async/Spawn/Scheduler/Conserve.antt =====
-- src/async_/spawn/scheduler.rs: where a runnable is, from its first wake until it is taken or
-- dropped, over any sequence of the scheduler's operations.
use ngx_rust.Prelude.{
  ℕ, ◌+◌, ◌≡◌, Bool, true, false, Option, none, some, List, [], ◌∷◌, ◌++◌, arith, ◌==◌,
  if◌then◌else◌,
}
use ngx_rust.Async.Spawn.Scheduler.{
  Scheduler, queue, accepted, cancellation, begin_processing, finish_processing, ScheduleAction,
  deferred, foreign, local, rejected_foreign, rejected_local, schedule, dispatch, stop_and_drop,
  drain_for_shutdown, fail_from_foreign_thread, quarantine, handoff, register_task_lifetime,
  release_task_lifetime, finish_shutdown,
}

abbrev pub count : ℕ → List ℕ → ℕ
count x [] = 0
count x (y ∷ ys) = (if x == y then 1 else 0) + count x ys

count-append : (x : ℕ) (ys zs : List ℕ) → count x (ys ++ zs) ≡ count x ys + count x zs
count-append x [] zs = omega arith
count-append x (y ∷ ys) zs = omega (arith, count-append x ys zs)

pub data Step : Type 0 where
  schedules : ℕ → ℕ → Bool → Step
  cancels : ℕ → ℕ → Step
  processes : ℕ → Step
  fails stops passes registers releases ends : Step

-- The scheduler, and the runnables that the worker took from its queue.
pub record Ledger : Type 0 where
  pub scheduler : Scheduler
  pub taken : List ℕ

abbrev pub process_from : ℕ → Option ((List ℕ × List ℕ) × Scheduler) → Ledger → Ledger
process_from current none l = l
process_from current (some ((cancelled, runnables), s)) l = record {
  scheduler = (finish_processing current s).1;
  taken = l.taken ++ runnables;
}

abbrev pub pass_from : Option (Bool × Scheduler) → Scheduler → Scheduler
pass_from none s = s
pass_from (some (last, s')) s = s'

abbrev pub on : (Scheduler → Scheduler) → Ledger → Ledger
on f l = record l { scheduler = f l.scheduler }

unfoldable pub step : Step → Ledger → Ledger
step (schedules current r delivered) l = on (schedule current r delivered) l
step (cancels current c) l = on (λ s. (cancellation current c s).1) l
step (processes current) l = process_from current (begin_processing current l.scheduler) l
step fails l = on fail_from_foreign_thread l
step stops l = on stop_and_drop l
step passes l = on (λ s. pass_from (handoff s) s) l
step registers l = on register_task_lifetime l
step releases l = on release_task_lifetime l
step ends l = on finish_shutdown l

unfoldable pub steps : List Step → Ledger → Ledger
steps [] l = l
steps (t ∷ ts) l = steps ts (step t l)

-- How often a runnable is queued, in quarantine or dropped.
abbrev pub held : ℕ → Scheduler → ℕ
held x s = count x s.queue + count x s.quarantined + count x s.dropped

abbrev pub accounted : ℕ → Ledger → ℕ
accounted x l = held x l.scheduler + count x l.taken

abbrev pub scheduled : ℕ → List Step → ℕ
scheduled x [] = 0
scheduled x (schedules current r delivered ∷ ts) = (if x == r then 1 else 0) + scheduled x ts
scheduled x (t ∷ ts) = scheduled x ts

-- A rejected runnable is carried by the action.
abbrev carried : ℕ → ScheduleAction → ℕ
carried x (rejected_foreign r) = count x (r ∷ [])
carried x (rejected_local r) = count x (r ∷ [])
carried x a = 0

stop_and_drop-held : (x : ℕ) (s : Scheduler) → held x (stop_and_drop s) ≡ held x s
unfolding stop_and_drop drain_for_shutdown
stop_and_drop-held x s = omega (
  arith,
  count-append x s.dropped (s.queue ++ s.quarantined),
  count-append x s.queue s.quarantined,
)

fail-held : (x : ℕ) (s : Scheduler) → held x (fail_from_foreign_thread s) ≡ held x s
unfolding fail_from_foreign_thread
fail-held x s = omega (arith, count-append x s.quarantined s.queue)

dispatch-held :
    (x : ℕ) (a : ScheduleAction) (delivered : Bool) (s : Scheduler)
    → held x (dispatch a delivered s) ≡ held x s + carried x a
unfolding quarantine
dispatch-held x deferred delivered s = omega arith
dispatch-held x local true s = omega arith
dispatch-held x local false s = omega (arith, stop_and_drop-held x s)
dispatch-held x foreign true s = omega arith
dispatch-held x foreign false s = omega (arith, fail-held x s)
dispatch-held x (rejected_local r) delivered s = omega (arith, count-append x s.dropped (r ∷ []))
dispatch-held x (rejected_foreign r) delivered s =
    omega (arith, count-append x s.quarantined (r ∷ []))

queue-held :
    (x current r : ℕ) (s : Scheduler)
    → let (a, s') = queue current r s in held x s' + carried x a ≡ held x s + count x (r ∷ [])
unfolding queue accepted
queue-held x current r s = ground (arith, count-append x s.queue (r ∷ []))

handoff-held : (x : ℕ) (s : Scheduler) → held x (pass_from (handoff s) s) ≡ held x s
unfolding handoff
handoff-held x s = ground (
  arith,
  count-append x s.dropped (s.queue ++ s.quarantined),
  count-append x s.queue s.quarantined,
)

process-accounted :
    (x current : ℕ) (l : Ledger)
    → accounted x (process_from current (begin_processing current l.scheduler) l) ≡ accounted x l
unfolding begin_processing finish_processing
process-accounted x current l = ground (arith, count-append x l.taken l.scheduler.queue)

step-accounted :
    (x : ℕ) (t : Step) (l : Ledger) → accounted x (step t l) ≡ accounted x l + scheduled x (t ∷ [])
unfolding step schedule cancellation register_task_lifetime release_task_lifetime finish_shutdown
step-accounted x (schedules current r delivered) l =
    let (a, s') = queue current r l.scheduler in
    omega (arith, dispatch-held x a delivered s', queue-held x current r l.scheduler)
step-accounted x (cancels current c) l = ground arith
step-accounted x (processes current) l = omega (arith, process-accounted x current l)
step-accounted x fails l = omega (arith, fail-held x l.scheduler)
step-accounted x stops l = omega (arith, stop_and_drop-held x l.scheduler)
step-accounted x passes l = omega (arith, handoff-held x l.scheduler)
step-accounted x registers l = omega arith
step-accounted x releases l = omega arith
step-accounted x ends l = omega arith

scheduled-cons :
    (x : ℕ) (t : Step) (ts : List Step)
    → scheduled x (t ∷ ts) ≡ scheduled x (t ∷ []) + scheduled x ts
scheduled-cons x (schedules current r delivered) ts = omega arith
scheduled-cons x (cancels current c) ts = omega arith
scheduled-cons x (processes current) ts = omega arith
scheduled-cons x fails ts = omega arith
scheduled-cons x stops ts = omega arith
scheduled-cons x passes ts = omega arith
scheduled-cons x registers ts = omega arith
scheduled-cons x releases ts = omega arith
scheduled-cons x ends ts = omega arith

-- Over any sequence of wakes from any threads, cancellations, processing, failures, stops and
-- hand-offs no runnable is lost or doubled: each is queued, in quarantine, dropped or taken by the
-- worker as often as it was before and was scheduled since.
pub steps-accounted :
    (x : ℕ) (ts : List Step) (l : Ledger)
    → accounted x (steps ts l) ≡ accounted x l + scheduled x ts
unfolding steps
steps-accounted x [] l = omega arith
steps-accounted x (t ∷ ts) l =
    omega (arith, steps-accounted x ts (step t l), step-accounted x t l, scheduled-cons x t ts)
