-- ===== src/Async/Spawn/Lease/Tests.antt =====
-- src/async_/spawn/scheduler.rs: two modules acquire leases on the worker of thread 3, and both release.
use ngx_rust.Prelude.{◌≡◌, refl, true, false, some, List, [], ◌∷◌, ok}
use ngx_rust.Async.Spawn.Scheduler as Sched
use ngx_rust.Async.Spawn.Scheduler.{check_spawn, processing_on_current_worker}
use ngx_rust.Async.Spawn.Lease.{
  Worker, Lease, Step, acquire, release, run, step, begin, acquire_worker, release_worker_lease,
  is_stopped,
}
use ngx_rust.Async.Spawn.Lease.Release.{run-release}

abbrev story : List Step
story = acquire true ∷ acquire true ∷ release 0 ∷ []

abbrev worker : Worker
worker = record { identity = 1; scheduler = Sched.new 3; leases = 1; tasks = [] }

abbrev lease : Lease
lease = record { identity = 1; active = true }

-- The lease that is left is the last.
run-release_example :
    ((release_worker_lease 3 lease (run 100 3 story begin).world).0 ≡ ok true)
    × ((release_worker_lease 3 lease (run 100 3 story begin).world).1.active ≡ false)
    × ((k' : Worker) × ((release_worker_lease 3 lease (run 100 3 story begin).world).2.worker
          ≡ some k')
        × (k'.leases ≡ 0)
        × (is_stopped k'.scheduler ≡ true))
unfolding run step acquire_worker release_worker_lease check_spawn processing_on_current_worker
run-release_example = run-release 100 3 1 story worker lease refl refl refl refl
