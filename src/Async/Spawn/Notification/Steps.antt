-- ===== src/Async/Spawn/Notification/Steps.antt =====
-- src/async_/spawn/scheduler.rs, notification.rs: what one access does to the notification, and who is
-- about to make the worker process what waits.
use ngx_rust.Prelude.{ℕ, ◌≡◌, ◌<◌, ◌≤◌, ◌⊎◌, Bool, true, false, ◌&&◌, ◌||◌, not, arith, ◌==◌}
use ngx_rust.Async.Spawn.Scheduler.{
  Scheduler, is_running, is_empty, queue, accepted, cancellation, fail_from_foreign_thread,
  quarantine, drain_for_shutdown, stop_and_drop, begin_processing, finish_processing,
}
use ngx_rust.Async.Spawn.Notification.{
  Answer, send_notification, drain_notification, runnable, cancel, Sender, returned, waking,
  refused, notifying, sending, clearing, failing, Worker, resting, draining, storing, unstoring,
  dropping, closing, unpending, starting, processing, reposting, System, sender_turn, worker_turn,
  has_returned,
}

-- A thread that set the flag, and has yet to send or to store it back.
abbrev pub sends : Sender → Bool
sends sending = true
sends clearing = true
sends t = false

-- A thread that queued its work, and is yet to notify the worker or to fail.
abbrev pub hurries : Sender → Bool
hurries notifying = true
hurries sending = true
hurries clearing = true
hurries failing = true
hurries t = false

-- A worker that will store the flag back.
abbrev pub drains : Worker → Bool
drains draining = true
drains storing = true
drains unstoring = true
drains closing = true
drains unpending = true
drains w = false

-- A worker in a handler, before it processes, posts its event or drops everything.
abbrev pub attends : Worker → Bool
attends resting = false
attends closing = false
attends unpending = false
attends (processing notified) = false
attends w = true

abbrev pub closes : Worker → Bool
closes closing = true
closes unpending = true
closes w = false

abbrev pub is_processing : Worker → Bool
is_processing (processing notified) = true
is_processing w = false

-- Work that a scheduler accepted and that no pass of `process` has yet.
abbrev pub awaits : Scheduler → Bool
awaits t =
    is_running t.phase
    && not t.processing
    && (not (is_empty t.queue) || not (is_empty t.cancellations))

abbrev pub SenderStep : Sender → System → Sender × System → Type 0
SenderStep t s o =
    (o.1.worker ≡ s.worker)
    × (o.1.posted ≡ s.posted)
    × (s.datagrams ≤ o.1.datagrams)
    × (o.1.scheduler.owner ≡ s.scheduler.owner)
    × (o.1.scheduler.processing ≡ s.scheduler.processing)
    × (is_running s.scheduler.phase ≡ false → is_running o.1.scheduler.phase ≡ false)
    × (o.1.pending ≡ true
        → (sends o.0 ≡ true) ⊎ ((0 < o.1.datagrams) ⊎ ((s.pending ≡ true) × (sends t ≡ false))))
    × (awaits o.1.scheduler ≡ true
        → (hurries o.0 ≡ true)
          ⊎ ((0 < o.1.datagrams)
              ⊎ (((awaits s.scheduler ≡ true) × (hurries t ≡ false))
                  ⊎ ((s.pending ≡ true) × (sends t ≡ false)))))

module _ (capacity : ℕ) where
  pub sender_turn-SenderStep :
      (i : ℕ) (answer : Answer) (t : Sender) (s : System)
      → 0 < capacity
      → (i == s.scheduler.owner) ≡ false
      → SenderStep t s (sender_turn capacity i answer t s)
  unfolding sender_turn send_notification queue accepted cancellation fail_from_foreign_thread
      quarantine
  sender_turn-SenderStep i answer returned s h o = ground arith
  sender_turn-SenderStep i answer (waking (runnable r)) s h o = ground arith
  sender_turn-SenderStep i answer (waking (cancel c)) s h o = ground arith
  sender_turn-SenderStep i answer (refused r) s h o = ground arith
  sender_turn-SenderStep i answer notifying s h o = ground arith
  sender_turn-SenderStep i answer sending s h o = ground arith
  sender_turn-SenderStep i answer clearing s h o = ground arith
  sender_turn-SenderStep i answer failing s h o = ground arith

abbrev pub WorkerStep : System → System → Type 0
WorkerStep s o =
    (o.scheduler.owner ≡ s.scheduler.owner)
    × (o.senders ≡ s.senders)
    × (o.scheduler.processing ≡ is_processing o.worker)
    × (closes o.worker ≡ true → is_running o.scheduler.phase ≡ false)
    × (o.pending ≡ true
        → (drains o.worker ≡ true)
          ⊎ ((s.pending ≡ true) × (s.datagrams ≤ o.datagrams) × (drains s.worker ≡ false)))
    × (awaits o.scheduler ≡ true
        → (o.posted ≡ true)
          ⊎ ((attends o.worker ≡ true)
              ⊎ ((awaits s.scheduler ≡ true)
                  × (s.posted ≡ false)
                  × (s.datagrams ≤ o.datagrams)
                  × (attends s.worker ≡ false))))

pub record IsSound (s : System) : Type 0 where
  pub processes : s.scheduler.processing ≡ is_processing s.worker
  pub foreign : has_returned (s.senders s.scheduler.owner) ≡ true
  pub closed : closes s.worker ≡ true → is_running s.scheduler.phase ≡ false
  pub heard :
      s.pending ≡ true
      → (0 < s.datagrams) ⊎ ((drains s.worker ≡ true) ⊎ ((i : ℕ) × (sends (s.senders i) ≡ true)))
  pub attended :
      awaits s.scheduler ≡ true
      → (s.posted ≡ true)
        ⊎ ((0 < s.datagrams)
            ⊎ ((attends s.worker ≡ true) ⊎ ((i : ℕ) × (hurries (s.senders i) ≡ true))))

pub worker_turn-WorkerStep :
    (answer : Answer) (w : Worker) (s : System)
    → s.worker ≡ w
    → s.scheduler.processing ≡ is_processing w
    → (closes w ≡ true → is_running s.scheduler.phase ≡ false)
    → WorkerStep s (worker_turn answer w s)
unfolding worker_turn drain_notification stop_and_drop drain_for_shutdown begin_processing
    finish_processing
worker_turn-WorkerStep answer resting s e p c = ground arith
worker_turn-WorkerStep answer draining s e p c = ground arith
worker_turn-WorkerStep answer storing s e p c = ground arith
worker_turn-WorkerStep answer unstoring s e p c = ground arith
worker_turn-WorkerStep answer dropping s e p c = ground arith
worker_turn-WorkerStep answer closing s e p c = ground arith
worker_turn-WorkerStep answer unpending s e p c = ground arith
worker_turn-WorkerStep answer (starting notified) s e p c = ground arith
worker_turn-WorkerStep answer (processing notified) s e p c = ground arith
worker_turn-WorkerStep answer (reposting notified) s e p c = ground arith
