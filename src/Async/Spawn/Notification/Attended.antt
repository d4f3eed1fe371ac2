-- ===== src/Async/Spawn/Notification/Attended.antt =====
-- src/async_/spawn/scheduler.rs, notification.rs: work that a thread hands to the worker while others
-- do, in every interleaving.
use ngx_rust.Prelude.{
  ℕ, ◌≡◌, ◌<◌, refl, sym, ap, ◌∙◌, ◌⊎◌, inl, inr, Bool, true, false, ◌&&◌, not, List, [], ◌∷◌,
  arith, ltb, ◌==◌, if◌then◌else◌, put, put-same, put-other, Bool-cases, if-elim,
}
use ngx_rust.Async.Spawn.Scheduler.{is_running, queue, accepted, cancellation, drain_for_shutdown}
use ngx_rust.Async.Spawn.Notification.{
  Answer, Wake, runnable, cancel, Sender, waking, Worker, resting, System, sender_turn, worker_turn,
  has_returned, draining, dropping, closing, starting, Move, sender, call, worker, run_posted,
  run_readable, wake_locally, release, local_turn, turn, run, rests, handles,
}
use ngx_rust.Async.Spawn.Notification.Steps.{
  hurries, attends, closes, is_processing, awaits, SenderStep, WorkerStep, IsSound,
  sender_turn-SenderStep, worker_turn-WorkerStep,
}
use ngx_rust.Async.Spawn.Notification.Preserved.{WorkerStep-IsSound, sender-IsSound}

local-WorkerStep :
    (wake : Wake) (delivered : Bool) (s : System)
    → handles s.worker ≡ true
    → s.scheduler.processing ≡ is_processing s.worker
    → (closes s.worker ≡ true → is_running s.scheduler.phase ≡ false)
    → WorkerStep s (local_turn wake delivered s)
unfolding local_turn queue accepted cancellation
local-WorkerStep (runnable r) delivered s h p c = ground arith
local-WorkerStep (cancel k) delivered s h p c = ground arith

posted-WorkerStep :
    (s : System)
    → s.worker ≡ resting
    → s.scheduler.processing ≡ false
    → WorkerStep s (record s { posted = false; worker = starting false })
posted-WorkerStep s e p = ground arith

readable-WorkerStep :
    (valid : Bool) (s : System)
    → s.worker ≡ resting
    → s.scheduler.processing ≡ false
    → WorkerStep s (record s { worker = if valid then draining else dropping })
readable-WorkerStep valid s e p = ground arith

release-WorkerStep :
    (s : System)
    → s.worker ≡ resting
    → s.scheduler.processing ≡ false
    → WorkerStep s (record s { scheduler = (drain_for_shutdown s.scheduler).1; worker = closing })
unfolding drain_for_shutdown
release-WorkerStep s e p = ground arith

foreign-put :
    (i : ℕ) (t : Sender) (s : System)
    → IsSound s
    → (i == s.scheduler.owner) ≡ false
    → has_returned (put i t s.senders s.scheduler.owner) ≡ true
foreign-put i t s sound h =
    ap has_returned (put-other i t s.senders s.scheduler.owner (λ e. ground arith)) ∙ sound.foreign

returned-SenderStep :
    (capacity i : ℕ) (answer : Answer) (t : Sender) (s : System)
    → has_returned t ≡ true
    → SenderStep t s (sender_turn capacity i answer t s)
      × (has_returned (sender_turn capacity i answer t s).0 ≡ true)
unfolding sender_turn
returned-SenderStep capacity i answer t s h = ground arith

call-SenderStep :
    (wake : Wake) (t : Sender) (s : System)
    → has_returned t ≡ true
    → SenderStep t s (waking wake, s)
call-SenderStep wake t s h = ground arith

rests-resting : (w : Worker) → rests w ≡ true → w ≡ resting
rests-resting w h = ground arith

IsSound-if :
    (t : Bool) (s o : System) → IsSound s → (t ≡ true → IsSound o) → IsSound (if t then o else s)
IsSound-if t s o sound step = if-elim IsSound t o s step (λ idle. sound)

module _ (capacity : ℕ) where
  turn-IsSound : (m : Move) (s : System) → 0 < capacity → IsSound s → IsSound (turn capacity m s)
  unfolding turn
  turn-IsSound (sender i answer) s h sound = elim (Bool-cases (i == s.scheduler.owner)) [
    | inl e ↦
        let same : i ≡ s.scheduler.owner = ground arith in
        let own =
          returned-SenderStep capacity i answer (s.senders i) s
            (ap (λ j. has_returned (s.senders j)) same ∙ sound.foreign) in
        let t = (sender_turn capacity i answer (s.senders i) s).0 in
        sender-IsSound i s (sender_turn capacity i answer (s.senders i) s)
          (ap (λ j. has_returned (put i t s.senders j)) (sym same)
            ∙ ap has_returned (put-same i t s.senders)
            ∙ own.1)
          sound own.0
    | inr e ↦
        sender-IsSound i s (sender_turn capacity i answer (s.senders i) s)
          (foreign-put i (sender_turn capacity i answer (s.senders i) s).0 s sound e) sound
          (sender_turn-SenderStep capacity i answer (s.senders i) s h e)
  ]
  turn-IsSound (call i wake) s h sound =
      IsSound-if (has_returned (s.senders i) && not (i == s.scheduler.owner)) s
        (record s { senders = put i (waking wake) s.senders }) sound
        (λ e.
          sender-IsSound i s (waking wake, s) (foreign-put i (waking wake) s sound (ground arith))
            sound (call-SenderStep wake (s.senders i) s (ground arith)))
  turn-IsSound (worker answer) s h sound =
      WorkerStep-IsSound s (worker_turn answer s.worker s) sound
        (worker_turn-WorkerStep answer s.worker s refl sound.processes sound.closed)
  turn-IsSound run_posted s h sound =
      IsSound-if (rests s.worker && s.posted) s
        (record s { posted = false; worker = starting false }) sound
        (λ e.
          let w = rests-resting s.worker (ground arith) in
          WorkerStep-IsSound s (record s { posted = false; worker = starting false }) sound
            (posted-WorkerStep s w (sound.processes ∙ ap is_processing w)))
  turn-IsSound (run_readable valid) s h sound =
      IsSound-if (rests s.worker && s.connected && ltb 0 s.datagrams) s
        (record s { worker = if valid then draining else dropping }) sound
        (λ e.
          let w = rests-resting s.worker (ground arith) in
          WorkerStep-IsSound s (record s { worker = if valid then draining else dropping }) sound
            (readable-WorkerStep valid s w (sound.processes ∙ ap is_processing w)))
  turn-IsSound (wake_locally wake delivered) s h sound =
      IsSound-if (handles s.worker) s (local_turn wake delivered s) sound (λ e.
        WorkerStep-IsSound s (local_turn wake delivered s) sound
          (local-WorkerStep wake delivered s e sound.processes sound.closed))
  turn-IsSound release s h sound =
      IsSound-if (rests s.worker) s
        (record s { scheduler = (drain_for_shutdown s.scheduler).1; worker = closing }) sound
        (λ e.
          let w = rests-resting s.worker e in
          WorkerStep-IsSound s
            (record s { scheduler = (drain_for_shutdown s.scheduler).1; worker = closing }) sound
            (release-WorkerStep s w (sound.processes ∙ ap is_processing w)))

  run-IsSound :
      (ms : List Move) (s : System) → 0 < capacity → IsSound s → IsSound (run capacity ms s)
  unfolding run
  run-IsSound [] s h sound = sound
  run-IsSound (m ∷ ms) s h sound = run-IsSound ms (turn capacity m s) h (turn-IsSound m s h sound)

  -- No notification is lost. Foreign threads wake the worker and cancel tasks while it drains its
  -- socket, processes, wakes itself and stops, every access in any order, from a resting worker without
  -- work. Work that the scheduler accepted and that the worker does not process yet never waits alone:
  -- the worker's event is posted, a datagram is in the socket, the worker is in a handler before it
  -- processes, or a thread is about to notify it or to fail the scheduler.
  pub run-attended :
      (ms : List Move) (s : System)
      → 0 < capacity
      → s.worker ≡ resting
      → s.pending ≡ false
      → s.scheduler.processing ≡ false
      → awaits s.scheduler ≡ false
      → has_returned (s.senders s.scheduler.owner) ≡ true
      → awaits (run capacity ms s).scheduler ≡ true
      → ((run capacity ms s).posted ≡ true)
        ⊎ ((0 < (run capacity ms s).datagrams)
            ⊎ ((attends (run capacity ms s).worker ≡ true)
                ⊎ ((i : ℕ) × (hurries ((run capacity ms s).senders i) ≡ true))))
  run-attended ms s h w p q a o =
      (run-IsSound ms s h (record {
        processes = q ∙ ap is_processing (sym w);
        foreign = o;
        closed = λ c. absurd (cc (ap closes w, c));
        heard = λ t. absurd (cc (p, t));
        attended = λ t. absurd (cc (a, t));
      })).attended
