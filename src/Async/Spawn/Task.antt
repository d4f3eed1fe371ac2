-- ===== src/Async/Spawn/Task.antt =====
-- src/async_/spawn/task.rs: a task's runner and the handle that awaits it, on the worker thread.
-- The future and the output are parameters: a poll of the future is an optional output. The
-- scheduler's part that a runner uses is the list of completed controls and the live tasks.
pub mod Outcome
use ngx_rust.Prelude.{
  ℕ, ◌+◌, ◌-◌, Bool, true, false, ◌&&◌, not, Option, none, some, if◌then◌else◌, Result, ok, err,
}
use ngx_rust.Async.Spawn.Control.{
  TaskStatus, active, cancel_requested, ready, TaskControl, set_waker, wake, fails,
}

pub data TaskError : Type 0 where
  canceled scheduler_failed output_taken : TaskError

unfoldable pub task_error : TaskStatus → Option TaskError
task_error active = none
task_error cancel_requested = none
task_error ready = none
task_error TaskStatus.canceled = some canceled
task_error TaskStatus.scheduler_failed = some scheduler_failed

-- `TaskControl::finish` with no other thread in between.
unfoldable pub store : TaskStatus → TaskControl → TaskStatus × TaskControl
store next c =
    (next, if fails next then wake (record c { status = next }) else record c { status = next })

abbrev pub finish_from : TaskStatus → TaskStatus → TaskControl → TaskStatus × TaskControl
finish_from active desired c = store desired c
finish_from cancel_requested desired c = store TaskStatus.canceled c
finish_from s desired c = (s, c)

unfoldable pub finish_now : TaskStatus → TaskControl → TaskStatus × TaskControl
finish_now desired c = finish_from c.status desired c

module _ (T : Type 0) where
  -- `TaskState::resolve`: the first result stays.
  unfoldable pub resolve :
      Result TaskError T → Option (Result TaskError T) → Option (Result TaskError T)
  resolve r none = some r
  resolve r (some existing) = some existing

  -- The runner, its handle, and what the scheduler keeps of them.
  pub record Task : Type 0 where
    pub control : TaskControl
    pub result : Option (Result TaskError T)
    pub attached : Bool
    pub completed : Bool
    pub reported : Bool
    pub live_tasks : ℕ

  abbrev pub resolve_error : Option TaskError → Task → Task
  resolve_error none t = t
  resolve_error (some e) t = record t { result = resolve (err e) t.result }

  -- `Scheduler::task_completed`: a control is reported once.
  unfoldable pub task_completed : Task → Task
  task_completed t = record t { reported = true }

  abbrev pub ready_with : TaskStatus → T → Task → Task
  ready_with ready x t = record t { result = resolve (ok x) t.result; control = wake t.control }
  ready_with TaskStatus.canceled x t = resolve_error (task_error t.control.status) t
  ready_with TaskStatus.scheduler_failed x t = resolve_error (task_error t.control.status) t
  ready_with s x t = t

  unfoldable pub finish_ready : T → Task → Task
  finish_ready x t =
      let (s, c) = finish_now ready t.control in
      task_completed (ready_with s x (record t { control = c }))

  unfoldable pub finish_error : TaskStatus → Task → Task
  finish_error desired t =
      let (s, c) = finish_now desired t.control in
      task_completed (resolve_error (task_error s) (record t { control = c }))

  -- `TaskRunner::poll`: true once the future is ready.
  unfoldable pub poll_runner : Option T → Task → Bool × Task
  poll_runner none t = (false, t)
  poll_runner (some x) t = (true, finish_ready x t)

  unfoldable pub drop_runner : Task → Task
  drop_runner t =
      let t' = finish_error TaskStatus.canceled t in record t' { live_tasks = t'.live_tasks - 1 }

  pub data Polled : Type 0 where
    pending : Polled
    done : Result TaskError T → Polled

  -- The second look at the status, after the waker is registered.
  abbrev pub poll_registered : Option TaskError → Task → Polled × Task
  poll_registered none t = (pending, t)
  poll_registered (some e) t = (done (err e), record t { completed = true })

  abbrev pub poll_status : ℕ → Option TaskError → Task → Polled × Task
  poll_status w none t =
      let c = set_waker w t.control in
      poll_registered (task_error c.status) (record t { control = c })
  poll_status w (some e) t = (done (err e), record t { completed = true })

  abbrev pub poll_result : ℕ → Option (Result TaskError T) → Task → Polled × Task
  poll_result w none t = poll_status w (task_error t.control.status) t
  poll_result w (some r) t = (done r, record t { completed = true; result = none })

  -- `LocalTask::poll` with the waker `w`.
  unfoldable pub poll_task : ℕ → Task → Polled × Task
  poll_task w t = if t.completed then (done (err output_taken), t) else poll_result w t.result t
