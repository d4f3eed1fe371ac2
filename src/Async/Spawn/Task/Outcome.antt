-- ===== src/Async/Spawn/Task/Outcome.antt =====
-- src/async_/spawn/task.rs: what the handle of a task receives.
use ngx_rust.Prelude.{
  List, zero, suc, ℕ, ◌-◌, ◌≡◌, refl, Bool, true, false, Option, none, some, arith, Result, ok, err,
  if◌then◌else◌,
}
use ngx_rust.Async.Spawn.Control.{
  TaskStatus, active, cancel_requested, ready, TaskControl, Thread, load, returned, finish, advance,
  exchange, exchanged, desired, from_raw, as_raw, wake,
}
use ngx_rust.Async.Spawn.Task.{
  TaskError, canceled, scheduler_failed, output_taken, Task, finish_now, store, task_error, resolve,
  task_completed, finish_ready, finish_error, drop_runner, poll_runner, poll_task, poll_result,
  done,
}

-- A thread that makes `n` accesses with no other thread in between, and no spurious failure.
unfoldable pub alone : ℕ → Thread → TaskControl → Thread × TaskControl
alone zero t c = (t, c)
alone (suc n) t c = let (t', c') = advance t false c in alone n t' c'

alone-finish_fields :
    (d s : TaskStatus) (b : Bool) (w : Option ℕ) (ws : List ℕ) (n : ℕ)
    → let c : TaskControl = record {
      scheduler = b;
      status = s;
      waker = w;
      woken = ws;
      requested = n;
    } in
      let (r, c') = finish_now d c in alone 3 (load (finish d)) c ≡ (returned (finish d) r, c')
unfolding alone advance exchange exchanged desired from_raw as_raw finish_now store
alone-finish_fields active active b w ws n = refl
alone-finish_fields cancel_requested active b w ws n = refl
alone-finish_fields ready active b w ws n = refl
alone-finish_fields TaskStatus.canceled active b w ws n = refl
alone-finish_fields TaskStatus.scheduler_failed active b w ws n = refl
alone-finish_fields d cancel_requested b w ws n = refl
alone-finish_fields d ready b w ws n = refl
alone-finish_fields d TaskStatus.canceled b w ws n = refl
alone-finish_fields d TaskStatus.scheduler_failed b w ws n = refl

-- A thread that finishes a task with no other thread in between has returned after three accesses,
-- with the status and the control that `finish_now` gives.
pub alone-finish :
    (d : TaskStatus) (c : TaskControl)
    → let (r, c') = finish_now d c in alone 3 (load (finish d)) c ≡ (returned (finish d) r, c')
alone-finish d c = alone-finish_fields d c.status c.scheduler c.waker c.woken c.requested

module _ {T : Type 0} where
  -- What a task delivers whose future is ready with `x` while the status is as given.
  abbrev pub outcome : TaskStatus → T → Result TaskError T
  outcome active x = ok x
  outcome ready x = ok x
  outcome cancel_requested x = err canceled
  outcome TaskStatus.canceled x = err canceled
  outcome TaskStatus.scheduler_failed x = err scheduler_failed

  -- The task after its future is ready and the runner is dropped.
  abbrev pub ended : T → Task T → Task T
  ended x t = drop_runner T (poll_runner T (some x) t).1

  ended-fields :
      (s : TaskStatus) (b : Bool) (v : Option ℕ) (ws : List ℕ) (n : ℕ) (x : T)
      (attached reported : Bool) (live : ℕ)
      → let t : Task T = record {
        control = record { scheduler = b; status = s; waker = v; woken = ws; requested = n };
        result = none;
        attached = attached;
        completed = false;
        reported = reported;
        live_tasks = live;
      } in
        ((ended x t).result ≡ some (outcome s x))
        × ((ended x t).completed ≡ false)
        × ((ended x t).reported ≡ true)
        × ((ended x t).live_tasks ≡ live - 1)
  unfolding drop_runner poll_runner finish_ready finish_error finish_now store task_error resolve
      task_completed wake
  ended-fields active b none ws n x a r live = (refl, refl, refl, refl)
  ended-fields active b (some v) ws n x a r live = (refl, refl, refl, refl)
  ended-fields ready b none ws n x a r live = (refl, refl, refl, refl)
  ended-fields ready b (some v) ws n x a r live = (refl, refl, refl, refl)
  ended-fields cancel_requested b none ws n x a r live = (refl, refl, refl, refl)
  ended-fields cancel_requested b (some v) ws n x a r live = (refl, refl, refl, refl)
  ended-fields TaskStatus.canceled b v ws n x a r live = (refl, refl, refl, refl)
  ended-fields TaskStatus.scheduler_failed b v ws n x a r live = (refl, refl, refl, refl)

  ended_lem :
      (x : T) (t : Task T) (o : Option (Result TaskError T)) (b : Bool)
      → o ≡ none
      → b ≡ false
      → let t' = record t { result = o; completed = b } in
        ((ended x t').result ≡ some (outcome t.control.status x))
        × ((ended x t').completed ≡ false)
        × ((ended x t').reported ≡ true)
        × ((ended x t').live_tasks ≡ t.live_tasks - 1)
  ended_lem x t none false e f =
      let c = t.control in
      ended-fields c.status c.scheduler c.waker c.woken c.requested x t.attached t.reported
        t.live_tasks
  ended_lem x t (some r) b e f = cc
  ended_lem x t none true e f = cc

  answered-poll :
      (w : ℕ) (t : Task T) (r : Result TaskError T)
      → t.completed ≡ false
      → t.result ≡ some r
      → ((poll_task T w t).0 ≡ done r)
        × ((poll_task T w (poll_task T w t).1).0 ≡ done (err output_taken))
  unfolding poll_task
  answered-poll w t r c e = by_fields t.completed t.result c e
    where
      by_fields :
          (b : Bool) (o : Option (Result TaskError T))
          → b ≡ false
          → o ≡ some r
          → let (p, t') = if b then (done (err output_taken), t) else poll_result T w o t in
            (p ≡ done r) × ((poll_task T w t').0 ≡ done (err output_taken))
      by_fields false (some q) c e = (ground arith, refl)
      by_fields false none c e = cc
      by_fields true o c e = cc

  -- The future of a task becomes ready and the runner is dropped. The handle, which has not been
  -- answered yet, then receives the output, or the cancellation or the failure that came first,
  -- and after that only that the output was taken; the control was reported to the scheduler, and
  -- one live task was released.
  pub ended-poll :
      (x : T) (w : ℕ) (t : Task T)
      → t.result ≡ none
      → t.completed ≡ false
      → let (p, t') = poll_task T w (ended x t) in
        (p ≡ done (outcome t.control.status x))
        × ((poll_task T w t').0 ≡ done (err output_taken))
        × ((ended x t).reported ≡ true)
        × ((ended x t).live_tasks ≡ t.live_tasks - 1)
  ended-poll x w t r c =
      let (result, fresh, reported, released) = ended_lem x t t.result t.completed r c in
      let (first, second) = answered-poll w (ended x t) (outcome t.control.status x) fresh result in
      (first, second, reported, released)
