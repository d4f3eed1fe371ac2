-- ===== src/Async/Spawn/Control.antt =====
-- src/async_/spawn/scheduler.rs: `TaskStatus` and `TaskControl`. The operations on the status are
-- loops around a weak compare-and-exchange that any thread may run. A thread is therefore a state
-- of its own, and `advance` performs its next atomic access: the load, one exchange (which may fail
-- spuriously), or the wake-up that follows a successful one.
pub mod Terminal
pub mod Interleaving
pub mod Returns
pub mod Wakeup
use ngx_rust.Prelude.{
  ℕ, zero, suc, ◌+◌, Bool, true, false, ◌&&◌, not, Option, none, some, List, [], ◌∷◌, ◌==◌,
  if◌then◌else◌, put,
}

pub data TaskStatus : Type 0 where
  active cancel_requested ready canceled scheduler_failed : TaskStatus

unfoldable pub from_raw : ℕ → TaskStatus
from_raw zero = active
from_raw (suc zero) = cancel_requested
from_raw (suc (suc zero)) = ready
from_raw (suc (suc (suc zero))) = canceled
from_raw (suc (suc (suc (suc n)))) = scheduler_failed

-- `status as u8`.
unfoldable pub as_raw : TaskStatus → ℕ
as_raw active = 0
as_raw cancel_requested = 1
as_raw ready = 2
as_raw canceled = 3
as_raw scheduler_failed = 4

abbrev pub fails : TaskStatus → Bool
fails active = false
fails cancel_requested = false
fails ready = false
fails canceled = true
fails scheduler_failed = true

-- `scheduler` tells whether the weak reference can still be upgraded, `requested` counts the calls
-- of `Scheduler::request_cancel`, and `woken` holds the wakers that were called, the last one first.
pub record TaskControl : Type 0 where
  pub scheduler : Bool
  pub status : TaskStatus
  pub waker : Option ℕ
  pub woken : List ℕ
  pub requested : ℕ

abbrev pub new : TaskControl
new = record { scheduler = true; status = active; waker = none; woken = []; requested = 0 }

unfoldable pub set_waker : ℕ → TaskControl → TaskControl
set_waker w c = record c { waker = some w }

abbrev pub wake_taken : Option ℕ → TaskControl → TaskControl
wake_taken none c = c
wake_taken (some w) c = record c { waker = none; woken = w ∷ c.woken }

unfoldable pub wake : TaskControl → TaskControl
wake c = wake_taken c.waker c

pub data Operation : Type 0 where
  request_cancel fail_scheduler : Operation
  finish : TaskStatus → Operation

-- The value an operation tries to store over the one it has seen; none where it returns instead.
unfoldable pub desired : Operation → TaskStatus → Option TaskStatus
desired request_cancel active = some cancel_requested
desired request_cancel s = none
desired fail_scheduler active = some scheduler_failed
desired fail_scheduler cancel_requested = some scheduler_failed
desired fail_scheduler s = none
desired (finish d) active = some d
desired (finish d) cancel_requested = some canceled
desired (finish d) s = none

pub data Thread : Type 0 where
  load : Operation → Thread
  seen : Operation → TaskStatus → Thread
  waking returned : Operation → TaskStatus → Thread

-- What follows a successful exchange to `next`.
unfoldable pub exchanged : Operation → TaskStatus → TaskControl → Thread × TaskControl
exchanged request_cancel next c =
    if c.scheduler
    then (returned request_cancel next, record c { status = next; requested = c.requested + 1 })
    else (load (finish scheduler_failed), record c { status = next })
exchanged fail_scheduler next c = (waking fail_scheduler next, record c { status = next })
exchanged (finish d) next c = (
  if fails next then waking (finish d) next else returned (finish d) next,
  record c { status = next },
)

-- One turn of the loop: a failed exchange reports the current value, which is looked at next.
unfoldable pub exchange :
    Operation → TaskStatus → Option TaskStatus → Bool → TaskControl → Thread × TaskControl
exchange op s none spurious c = (returned op s, c)
exchange op s (some next) spurious c =
    if (as_raw c.status == as_raw s) && not spurious
    then exchanged op next c
    else (seen op (from_raw (as_raw c.status)), c)

unfoldable pub advance : Thread → Bool → TaskControl → Thread × TaskControl
advance (load op) spurious c = (seen op (from_raw (as_raw c.status)), c)
advance (seen op s) spurious c = exchange op s (desired op s) spurious c
advance (waking op s) spurious c = (returned op s, wake c)
advance (returned op s) spurious c = (returned op s, c)
