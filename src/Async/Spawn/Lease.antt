-- ===== src/Async/Spawn/Lease.antt =====
-- src/async_/spawn/scheduler.rs: the leases on the worker's scheduler. A scheduler's `Arc` is a number;
-- the worker holds the state that it leads to. Threads that still hold runnables hand them over before
-- the wait of `drain_task_handoffs` ends, which the model takes as one step.
mod Tests
pub mod Counted
pub mod Release
use ngx_rust.Prelude.{
  ℕ, zero, suc, ◌+◌, ◌-◌, Bool, true, false, ◌&&◌, not, Option, none, some, List, [], ◌∷◌, ◌++◌,
  ◌==◌, if◌then◌else◌, Result, ok, err,
}
use ngx_rust.Async.Spawn.Scheduler.{
  Scheduler, SchedulerPhase, running, stopping, stopped, check_spawn, processing_on_current_worker,
  drain_for_shutdown, finish_shutdown,
}
use ngx_rust.Async.Spawn.Scheduler as Sched

pub data SchedulerInitError : Type 0 where
  already_initialized notification_channel : SchedulerInitError

pub data SchedulerShutdownError : Type 0 where
  wrong_worker processing : SchedulerShutdownError

-- `WorkerScheduler`, with the tasks' controls.
pub record Worker : Type 0 where
  pub identity : ℕ
  pub scheduler : Scheduler
  pub leases : ℕ
  pub tasks : List ℕ

-- `WorkerSchedulerLease`.
pub record Lease : Type 0 where
  pub identity : ℕ
  pub active : Bool

-- `WORKER_SCHEDULER`, `ACTIVE_SCHEDULER`, the number of the next `Arc`, and the controls that were
-- finished as canceled.
pub record World : Type 0 where
  pub worker : Option Worker
  pub active : Option ℕ
  pub fresh : ℕ
  pub canceled : List ℕ

abbrev pub is_stopped : Scheduler → Bool
is_stopped s = elim s.phase [ running ↦ false | stopping ↦ false | stopped ↦ true ]

abbrev pub is_ok : {E A : Type 0} → Result E A → Bool
is_ok (ok a) = true
is_ok (err e) = false

abbrev pub Acquired : Type 0
Acquired = Result SchedulerInitError Lease × World

-- The worker that a thread initializes, where no other is active and its channel opens.
abbrev pub create : ℕ → Bool → Option ℕ → World → Acquired
create current opens (some other) w = (err already_initialized, w)
create current opens none w =
    if opens
    then (
      ok (record { identity = w.fresh; active = true }),
      record w {
        worker =
            some (record {
              identity = w.fresh;
              scheduler = Sched.new current;
              leases = 1;
              tasks = [];
            });
        active = some w.fresh;
        fresh = w.fresh + 1;
      },
    )
    else (err notification_channel, w)

-- The worker that stopped without leases is taken apart before another is created.
abbrev pub retire : Worker → World → World
retire k w = record w { worker = none; canceled = w.canceled ++ k.tasks }

abbrev pub acquire_from : ℕ → ℕ → Bool → Option Worker → World → Acquired
acquire_from usize_max current opens none w = create current opens w.active w
acquire_from usize_max current opens (some k) w =
    if is_ok (check_spawn current k.scheduler)
    then (if k.leases == usize_max then (err already_initialized, w) else (
      ok (record { identity = k.identity; active = true }),
      record w { worker = some (record k { leases = k.leases + 1 }) },
    ))
    else (if is_stopped k.scheduler && (k.leases == 0)
        then create current opens w.active (retire k w)
        else (err already_initialized, w))

unfoldable pub acquire_worker : ℕ → ℕ → Bool → World → Acquired
acquire_worker usize_max current opens w = acquire_from usize_max current opens w.worker w

-- The scheduler after the last lease: drained, its hand-offs over, and stopped.
unfoldable pub shut_down : Scheduler → Scheduler
shut_down s =
    let (queued, drained) = drain_for_shutdown s in
    let waited = record drained { live_tasks = 0; dropped = drained.dropped ++ queued } in
    finish_shutdown waited

-- `clear_active_scheduler`.
abbrev pub clear_active : ℕ → Option ℕ → Option ℕ
clear_active identity none = none
clear_active identity (some i) = if i == identity then none else some i

abbrev pub Released : Type 0
Released = Result SchedulerShutdownError Bool × Lease × World

abbrev pub release_last : Worker → Lease → World → Released
release_last k l w = (
  ok (not (is_stopped k.scheduler)),
  record l { active = false },
  record w {
    worker = some (record k { scheduler = shut_down k.scheduler; leases = 0; tasks = [] });
    active = clear_active k.identity w.active;
    canceled = w.canceled ++ k.tasks;
  },
)

abbrev pub release_from : ℕ → Option Worker → Lease → World → Released
release_from current none l w = (err wrong_worker, l, w)
release_from current (some k) l w =
    if not (k.identity == l.identity)
    then (err wrong_worker, l, w)
    else (if processing_on_current_worker current k.scheduler
        then (err processing, l, w)
        else (if k.leases == 0
            then (err wrong_worker, l, w)
            else (if k.leases - 1 == 0 then release_last k l w else (
              ok false,
              record l { active = false },
              record w { worker = some (record k { leases = k.leases - 1 }) },
            ))))

unfoldable pub release_worker_lease : ℕ → Lease → World → Released
release_worker_lease current l w =
    if not l.active then (ok false, l, w) else release_from current w.worker l w

-- The worker's world, and the leases that its modules hold.
pub record System : Type 0 where
  pub world : World
  pub held : List Lease

-- A module acquires a lease or releases one; in between, the scheduler and its tasks change anyhow.
pub data Step : Type 0 where
  acquire : Bool → Step
  release : ℕ → Step
  change : Scheduler → List ℕ → Step

abbrev pub release_nth : ℕ → ℕ → List Lease → World → List Lease × World
release_nth current i [] w = ([], w)
release_nth current zero (l ∷ ls) w =
    let released = release_worker_lease current l w in (released.1 ∷ ls, released.2)
release_nth current (suc i) (l ∷ ls) w =
    let rest = release_nth current i ls w in (l ∷ rest.0, rest.1)

abbrev pub keep : Acquired → List Lease → System
keep (err e, w) ls = record { world = w; held = ls }
keep (ok l, w) ls = record { world = w; held = l ∷ ls }

abbrev pub changed : Scheduler → List ℕ → Option Worker → Option Worker
changed t tasks none = none
changed t tasks (some k) = some (record k { scheduler = t; tasks = tasks })

unfoldable pub step : ℕ → ℕ → Step → System → System
step usize_max current (acquire opens) s =
    keep (acquire_worker usize_max current opens s.world) s.held
step usize_max current (release i) s =
    let (held, w) = release_nth current i s.held s.world in record { world = w; held = held }
step usize_max current (change t tasks) s =
    let w = s.world in
    record { world = record w { worker = changed t tasks w.worker }; held = s.held }

unfoldable pub run : ℕ → ℕ → List Step → System → System
run usize_max current [] s = s
run usize_max current (o ∷ os) s = run usize_max current os (step usize_max current o s)

abbrev pub begin : System
begin = record {
  world = record { worker = none; active = none; fresh = 1; canceled = [] };
  held = [];
}
