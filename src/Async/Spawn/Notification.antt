-- ===== src/Async/Spawn/Notification.antt =====
-- src/async_/spawn/notification.rs, and the notifications and handlers of scheduler.rs: foreign threads
-- that wake the worker through a socket, whose datagrams stand for the whole queue. Every thread makes
-- one access to the shared state a turn, in any order; the accesses under the scheduler's lock are the
-- operations of Scheduler. What a call of `send` or `recv` meets is the turn's answer.
mod Tests
pub mod Steps
pub mod Preserved
pub mod Attended
use ngx_rust.Prelude.{
  ℕ, zero, suc, ◌+◌, Bool, true, false, ◌&&◌, ◌||◌, not, Option, none, some, List, [], ◌∷◌, leb,
  ltb, ◌==◌, if◌then◌else◌, put,
}
use ngx_rust.Async.Spawn.Scheduler.{
  Scheduler, ScheduleAction, deferred, foreign, local, rejected_foreign, rejected_local, WakeAction,
  rejected, queue, cancellation, fail_from_foreign_thread, quarantine, drain_for_shutdown,
  stop_and_drop, is_stopping, begin_processing, finish_processing,
}

-- The call is interrupted, fails, or reaches the socket.
pub data Answer : Type 0 where
  interrupted broken reached : Answer

-- One pass of `send_notification` on a socket that holds at most `capacity` datagrams, of which there
-- are `n`: none where it continues. A full socket answers EAGAIN.
unfoldable pub send_notification : ℕ → Answer → ℕ → Option Bool × ℕ
send_notification capacity interrupted n = (none, n)
send_notification capacity broken n = (some false, n)
send_notification capacity reached n = (some true, if leb capacity n then n else n + 1)

-- One pass of `drain_notification`. An empty socket answers EAGAIN.
unfoldable pub drain_notification : Answer → ℕ → Option Bool × ℕ
drain_notification interrupted n = (none, n)
drain_notification broken n = (some false, n)
drain_notification reached zero = (some true, zero)
drain_notification reached (suc n) = (none, n)

-- What a thread asks of the scheduler.
pub data Wake : Type 0 where
  runnable : ℕ → Wake
  cancel : ℕ → Wake

-- A foreign thread: in `schedule` or `request_cancel` before its lock, after a rejection, before the
-- swap of `notification_pending`, before `send`, before the store after a failure, and before
-- `fail_from_foreign_thread`.
pub data Sender : Type 0 where
  returned : Sender
  waking : Wake → Sender
  refused : ℕ → Sender
  notifying sending clearing failing : Sender

-- The worker: outside of its handlers, draining the socket, before the store of
-- `notification_pending` and the one after a failure, before `stop_and_drop`, before `process`, in it,
-- before it posts its event again, and before it closes the socket. `process` and the post are those
-- of the notification's handler where the flag is set, and of the posted event's otherwise.
pub data Worker : Type 0 where
  resting draining storing unstoring dropping closing unpending : Worker
  starting processing reposting : Bool → Worker

pub record System : Type 0 where
  pub scheduler : Scheduler
  pub pending : Bool
  pub connected : Bool
  pub datagrams : ℕ
  pub posted : Bool
  pub worker : Worker
  pub senders : ℕ → Sender

abbrev pub after_queue : ScheduleAction → Sender
after_queue deferred = returned
after_queue foreign = notifying
after_queue local = returned
after_queue (rejected_foreign r) = refused r
after_queue (rejected_local r) = returned

abbrev pub after_cancellation : WakeAction → Sender
after_cancellation deferred = returned
after_cancellation foreign = notifying
after_cancellation local = returned
after_cancellation rejected = returned

abbrev pub after_send : Option Bool → Sender
after_send none = sending
after_send (some true) = returned
after_send (some false) = clearing

abbrev pub after_drain : Option Bool → Worker
after_drain none = draining
after_drain (some true) = storing
after_drain (some false) = unstoring

-- A handler that `process` answered: it posts again, or stops a scheduler that is stopping.
abbrev pub after_process : Bool → Bool → Scheduler → Worker
after_process notified again s =
    if again then reposting notified else (if is_stopping s.phase then dropping else resting)

module _ (capacity : ℕ) where
  -- The next access of the foreign thread `i`, whose number is not the owner's.
  unfoldable pub sender_turn : ℕ → Answer → Sender → System → Sender × System
  sender_turn i answer returned s = (returned, s)
  sender_turn i answer (waking (runnable r)) s =
      let (action, t) = queue i r s.scheduler in (after_queue action, record s { scheduler = t })
  sender_turn i answer (waking (cancel c)) s =
      let (action, t) = cancellation i c s.scheduler in
      (after_cancellation action, record s { scheduler = t })
  sender_turn i answer (refused r) s = (returned, record s { scheduler = quarantine r s.scheduler })
  sender_turn i answer notifying s =
      (if s.pending then returned else sending, record s { pending = true })
  sender_turn i answer sending s =
      let (sent, n) = send_notification capacity answer s.datagrams in
      if s.connected then (after_send sent, record s { datagrams = n }) else (clearing, s)
  sender_turn i answer clearing s = (failing, record s { pending = false })
  sender_turn i answer failing s =
      (returned, record s { scheduler = fail_from_foreign_thread s.scheduler })

-- The worker's next access, in a handler. The posted event's handler ignores what its post answers: the
-- event refuses it only once it is shut down, which comes after the scheduler was drained.
unfoldable pub worker_turn : Answer → Worker → System → System
worker_turn answer resting s = s
worker_turn answer draining s =
    let (drained, n) = drain_notification answer s.datagrams in
    record s { datagrams = n; worker = after_drain drained }
worker_turn answer storing s = record s { pending = false; worker = starting true }
worker_turn answer unstoring s = record s { pending = false; worker = dropping }
worker_turn answer dropping s = record s { scheduler = stop_and_drop s.scheduler; worker = resting }
worker_turn answer (starting notified) s = elim (begin_processing s.scheduler.owner s.scheduler) [
  | none ↦ record s { worker = after_process notified false s.scheduler }
  | some taken ↦ record s { scheduler = taken.1; worker = processing notified }
]
worker_turn answer (processing notified) s =
    let (again, t) = finish_processing s.scheduler.owner s.scheduler in
    record s { scheduler = t; worker = after_process notified again t }
worker_turn answer (reposting notified) s = elim answer [
  | broken ↦
      if notified
      then record s { worker = dropping }
      else record s { posted = true; worker = resting }
  | _ ↦ record s { posted = true; worker = resting }
]
worker_turn answer closing s = record s { connected = false; posted = false; worker = unpending }
worker_turn answer unpending s = record s { pending = false; worker = resting }

-- A thread takes its next access, or starts a call; nginx runs the posted event, or the handler of
-- the readable socket, with an event that is valid or not; a wake on the worker's own thread; the
-- release of the last lease, which drains the scheduler before it closes the socket.
pub data Move : Type 0 where
  sender : ℕ → Answer → Move
  call : ℕ → Wake → Move
  worker : Answer → Move
  run_posted : Move
  run_readable : Bool → Move
  wake_locally : Wake → Bool → Move
  release : Move

abbrev pub rests : Worker → Bool
rests resting = true
rests w = false

abbrev pub handles : Worker → Bool
handles resting = true
handles (processing notified) = true
handles w = false

abbrev pub has_returned : Sender → Bool
has_returned returned = true
has_returned t = false

-- The worker's own wake: `post_current` where the queue asks for it.
abbrev pub after_local : Bool → Bool → System → System
after_local posts delivered s =
    if posts
    then (if delivered then record s { posted = true } else record s { worker = dropping })
    else s

abbrev pub is_local : ScheduleAction → Bool
is_local local = true
is_local a = false

abbrev pub is_local_cancel : WakeAction → Bool
is_local_cancel local = true
is_local_cancel a = false

unfoldable pub local_turn : Wake → Bool → System → System
local_turn (runnable r) delivered s =
    let (action, t) = queue s.scheduler.owner r s.scheduler in
    after_local (is_local action) delivered (record s { scheduler = t })
local_turn (cancel c) delivered s =
    let (action, t) = cancellation s.scheduler.owner c s.scheduler in
    after_local (is_local_cancel action) delivered (record s { scheduler = t })

module _ (capacity : ℕ) where
  -- A move that does not apply changes nothing.
  unfoldable pub turn : Move → System → System
  turn (sender i answer) s =
      let (t, s') = sender_turn capacity i answer (s.senders i) s in
      record s' { senders = put i t s.senders }
  turn (call i wake) s =
      if has_returned (s.senders i) && not (i == s.scheduler.owner)
      then record s { senders = put i (waking wake) s.senders }
      else s
  turn (worker answer) s = worker_turn answer s.worker s
  turn run_posted s =
      if rests s.worker && s.posted then record s { posted = false; worker = starting false } else s
  turn (run_readable valid) s =
      if rests s.worker && s.connected && ltb 0 s.datagrams
      then record s { worker = if valid then draining else dropping }
      else s
  turn (wake_locally wake delivered) s = if handles s.worker then local_turn wake delivered s else s
  turn release s =
      if rests s.worker
      then record s { scheduler = (drain_for_shutdown s.scheduler).1; worker = closing }
      else s

  unfoldable pub run : List Move → System → System
  run [] s = s
  run (m ∷ ms) s = run ms (turn m s)
