-- ===== src/Async/Spawn/Scheduler.antt =====
-- src/async_/spawn/scheduler.rs: `Scheduler` and the state under its lock. A runnable and a control
-- are numbers, as is a thread; every operation takes the current thread where the source asks for
-- it. `dropped` lists the runnables that were destroyed. What a call outside the lock answers (the
-- post, the datagram) is an argument.
pub mod Wakes
pub mod Conserve
pub mod Stopped
use ngx_rust.Prelude.{
  ℕ, zero, suc, ◌+◌, ◌-◌, ◌%◌, ◌^◌, Bool, true, false, ◌&&◌, ◌||◌, not, Option, none, some, List,
  [], ◌∷◌, ◌++◌, ◌==◌, if◌then◌else◌, Result, ok, err,
}

pub data SpawnError : Type 0 where
  uninitialized wrong_worker shutting_down : SpawnError

pub data SchedulerPhase : Type 0 where
  running stopping stopped : SchedulerPhase

abbrev pub is_running : SchedulerPhase → Bool
is_running running = true
is_running stopping = false
is_running stopped = false

abbrev pub is_stopping : SchedulerPhase → Bool
is_stopping running = false
is_stopping stopping = true
is_stopping stopped = false

pub record Scheduler : Type 0 where
  pub owner : ℕ
  pub phase : SchedulerPhase
  pub queue : List ℕ
  pub cancellations : List ℕ
  pub quarantined : List ℕ
  pub live_tasks : ℕ
  pub processing : Bool
  pub dropped : List ℕ

abbrev pub new : ℕ → Scheduler
new worker = record {
  owner = worker;
  phase = running;
  queue = [];
  cancellations = [];
  quarantined = [];
  live_tasks = 0;
  processing = false;
  dropped = [];
}

unfoldable pub check_spawn : ℕ → Scheduler → Result SpawnError (Unit {0})
check_spawn current s =
    if is_running s.phase
    then (if s.owner == current then ok tt else err wrong_worker)
    else err shutting_down

unfoldable pub register_task_lifetime : Scheduler → Scheduler
register_task_lifetime s = record s { live_tasks = (s.live_tasks + 1) % 2 ^ 64 }

unfoldable pub release_task_lifetime : Scheduler → Scheduler
release_task_lifetime s = record s { live_tasks = (s.live_tasks + (2 ^ 64 - 1)) % 2 ^ 64 }

pub data ScheduleAction : Type 0 where
  deferred foreign local : ScheduleAction
  rejected_foreign rejected_local : ℕ → ScheduleAction

-- How an accepted wake reaches the worker.
unfoldable pub accepted : ℕ → Scheduler → ScheduleAction
accepted current s =
    if s.processing then deferred else (if s.owner == current then local else foreign)

unfoldable pub queue : ℕ → ℕ → Scheduler → ScheduleAction × Scheduler
queue current runnable s =
    if is_running s.phase
    then (accepted current s, record s { queue = s.queue ++ runnable ∷ [] })
    else (if s.owner == current then rejected_local runnable else rejected_foreign runnable, s)

pub data WakeAction : Type 0 where
  deferred foreign local rejected : WakeAction

-- `Scheduler::request_cancel`, under the lock.
unfoldable pub cancellation : ℕ → ℕ → Scheduler → WakeAction × Scheduler
cancellation current control s =
    if is_running s.phase
    then (
      if s.processing then deferred else (if s.owner == current then local else foreign),
      record s { cancellations = s.cancellations ++ control ∷ [] },
    )
    else (rejected, s)

unfoldable pub fail_from_foreign_thread : Scheduler → Scheduler
fail_from_foreign_thread s = record s {
  phase = if is_running s.phase then stopping else s.phase;
  queue = [];
  quarantined = s.quarantined ++ s.queue;
}

unfoldable pub quarantine : ℕ → Scheduler → Scheduler
quarantine runnable s = record s { quarantined = s.quarantined ++ runnable ∷ [] }

unfoldable pub drain_for_shutdown : Scheduler → List ℕ × Scheduler
drain_for_shutdown s = (
  s.queue ++ s.quarantined,
  record s {
    phase = if is_running s.phase then stopping else s.phase;
    cancellations = [];
    queue = [];
    quarantined = [];
  },
)

abbrev pub is_empty : List ℕ → Bool
is_empty [] = true
is_empty (x ∷ xs) = false

-- One pass of `drain_task_handoffs`: none where it waits; whether it was the last.
unfoldable pub handoff : Scheduler → Option (Bool × Scheduler)
handoff s =
    if not (s.live_tasks == 0) && is_empty s.queue && is_empty s.quarantined
    then none
    else some (
      s.live_tasks == 0,
      record s { queue = []; quarantined = []; dropped = s.dropped ++ (s.queue ++ s.quarantined) },
    )

unfoldable pub processing_on_current_worker : ℕ → Scheduler → Bool
processing_on_current_worker current s =
    (s.owner == current) && (is_running s.phase || is_stopping s.phase) && s.processing

-- `stop_and_drop`, before the hand-offs that follow unless the worker is processing.
unfoldable pub stop_and_drop : Scheduler → Scheduler
stop_and_drop s =
    let (queued, s') = drain_for_shutdown s in record s' { dropped = s'.dropped ++ queued }

-- What follows `queue`: the wake reached the worker, or it stops the scheduler.
abbrev pub dispatch : ScheduleAction → Bool → Scheduler → Scheduler
dispatch deferred delivered s = s
dispatch local delivered s = if delivered then s else stop_and_drop s
dispatch foreign delivered s = if delivered then s else fail_from_foreign_thread s
dispatch (rejected_local r) delivered s = record s { dropped = s.dropped ++ r ∷ [] }
dispatch (rejected_foreign r) delivered s = quarantine r s

unfoldable pub schedule : ℕ → ℕ → Bool → Scheduler → Scheduler
schedule current runnable delivered s =
    let (action, s') = queue current runnable s in dispatch action delivered s'

abbrev pub initial : ScheduleAction → Bool → Result SpawnError (Unit {0})
initial deferred delivered = ok tt
initial local delivered = if delivered then ok tt else err shutting_down
initial foreign delivered = if delivered then ok tt else err shutting_down
initial (rejected_local r) delivered = err shutting_down
initial (rejected_foreign r) delivered = err shutting_down

unfoldable pub schedule_initial :
    ℕ → ℕ → Bool → Scheduler → Result SpawnError (Unit {0}) × Scheduler
schedule_initial current runnable delivered s =
    let (action, s') = queue current runnable s in
    (initial action delivered, dispatch action delivered s')

-- The guard and the two takes at the start of `process`: none where it returns false.
unfoldable pub begin_processing : ℕ → Scheduler → Option ((List ℕ × List ℕ) × Scheduler)
begin_processing current s =
    if is_running s.phase && (s.owner == current) && not s.processing
    then some
        ((s.cancellations, s.queue), record s { processing = true; cancellations = []; queue = [] })
    else none

unfoldable pub finish_processing : ℕ → Scheduler → Bool × Scheduler
finish_processing current s = (
  is_running s.phase
      && (s.owner == current)
      && (not (is_empty s.queue) || not (is_empty s.cancellations)),
  record s { processing = false },
)

unfoldable pub is_running_on_current_worker : ℕ → Scheduler → Bool
is_running_on_current_worker current s = (s.owner == current) && is_running s.phase

unfoldable pub finish_shutdown : Scheduler → Scheduler
finish_shutdown s = record s { phase = if is_stopping s.phase then stopped else s.phase }
