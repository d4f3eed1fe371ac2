-- ===== src/Async/Spawn/Control/Interleaving.antt =====
-- src/async_/spawn/scheduler.rs: any number of threads on one `TaskControl`, in any order.
use ngx_rust.Prelude.{ℕ, ◌≡◌, sym, subst, ◌≢◌, Bool, true, false, List, [], ◌∷◌, put, put-elim}
use ngx_rust.Async.Spawn.Control.{
  TaskStatus, active, cancel_requested, ready, TaskControl, Thread, load, seen, waking, returned,
  advance, Operation, request_cancel, fail_scheduler, finish, as_raw,
}
use ngx_rust.Async.Spawn.Control.Terminal.{
  is_terminal, follows, follows_refl, follows_trans, terminal_follows, IsValid, Settled, Told,
  advance-Told,
}

pub record System : Type 0 where
  pub control : TaskControl
  pub threads : ℕ → Thread

-- A turn names the thread, and whether its exchange fails spuriously.
unfoldable pub turn : ℕ × Bool → System → System
turn (i, spurious) s =
    let (t, c) = advance (s.threads i) spurious s.control in
    record { control = c; threads = put i t s.threads }

unfoldable pub run : List (ℕ × Bool) → System → System
run [] s = s
run (t ∷ ts) s = run ts (turn t s)

-- Every thread is about to begin one of the operations.
abbrev pub IsStart : System → Type 0
IsStart s = (i : ℕ) → (op : Operation) × (s.threads i ≡ load op) × IsValid op

abbrev pub AllTold : System → Type 0
AllTold s = (i : ℕ) → Told (s.threads i) s.control.status

pub start-AllTold : (s : System) → IsStart s → AllTold s
start-AllTold s h i = let (op, e, v) = h i in rw e v

Told-follows :
    (t : Thread) (now later : TaskStatus) → Told t now → follows now later ≡ true → Told t later
Told-follows (load op) now later k h = k
Told-follows (seen op s) now later k h = (k.0, follows_trans s now later k.1 h)
Told-follows (waking op s) now later k h = ((k.0.0, follows_trans s now later k.0.1 h), k.1)
Told-follows (returned op s) now later k h = ((k.0.0, follows_trans s now later k.0.1 h), k.1)

pub turn-AllTold :
    (t : ℕ × Bool) (s : System)
    → AllTold s
    → AllTold (turn t s) × (follows s.control.status (turn t s).control.status ≡ true)
unfolding turn
turn-AllTold (i, spurious) s h =
    let now = (advance (s.threads i) spurious s.control).1.status in
    let (told, later) = advance-Told (s.threads i) spurious s.control (h i) in
    (
      put-elim (λ t. Told t now) i _ s.threads told
          (λ j. Told-follows (s.threads j) s.control.status now (h j) later),
      later,
    )

pub run-AllTold :
    (ts : List (ℕ × Bool)) (s : System)
    → AllTold s
    → AllTold (run ts s) × (follows s.control.status (run ts s).control.status ≡ true)
unfolding run
run-AllTold [] s h = (h, follows_refl s.control.status)
run-AllTold (t ∷ ts) s h =
    let (told, now) = turn-AllTold t s h in
    let (told', later) = run-AllTold ts (turn t s) told in
    (told', follows_trans s.control.status (turn t s).control.status _ now later)

-- The operations that end a task, unlike the request that a worker has yet to act on.
abbrev pub is_settling : Operation → Bool
is_settling request_cancel = false
is_settling fail_scheduler = true
is_settling (finish d) = true

Settled-terminal :
    (op : Operation) (r : TaskStatus) → is_settling op ≡ true → Settled op r → is_terminal r ≡ true
Settled-terminal fail_scheduler r e h = h
Settled-terminal (finish d) r e h = h
Settled-terminal request_cancel r e h = cc

-- Threads run operations on one task in any order, with any spurious failures. When a thread's
-- `finish` or `fail_scheduler` has returned, the task has ended, with the status that it returned:
-- all such threads report the same end.
pub run-agrees :
    (ts : List (ℕ × Bool)) (s : System) (i : ℕ) (op : Operation) (r : TaskStatus)
    → IsStart s
    → is_settling op ≡ true
    → (run ts s).threads i ≡ returned op r
    → (is_terminal r ≡ true) × ((run ts s).control.status ≡ r)
run-agrees ts s i op r start e h =
    let told =
      subst (λ t. Told t (run ts s).control.status) h
        ((run-AllTold ts s (start-AllTold s start)).0 i) in
    let end = Settled-terminal op r e told.1 in
    (end, sym (terminal_follows r (run ts s).control.status end told.0.1))

not_again :
    (now : TaskStatus) → follows cancel_requested now ≡ true → (now ≢ ready) × (now ≢ active)
unfolding as_raw
not_again now h = ((λ e. cc), λ e. cc)

-- Threads run operations on one task in any order, with any spurious failures. A task that has
-- ended keeps its status.
pub run-terminal :
    (ts : List (ℕ × Bool)) (s : System)
    → IsStart s
    → is_terminal s.control.status ≡ true
    → (run ts s).control.status ≡ s.control.status
run-terminal ts s start end =
    sym (terminal_follows s.control.status _ end (run-AllTold ts s (start-AllTold s start)).1)

-- Threads run operations on one task in any order, with any spurious failures, finishing with
-- success among them. A task whose cancellation was requested never becomes ready or active.
pub run-cancel_requested :
    (ts : List (ℕ × Bool)) (s : System)
    → IsStart s
    → s.control.status ≡ cancel_requested
    → ((run ts s).control.status ≢ ready) × ((run ts s).control.status ≢ active)
run-cancel_requested ts s start e =
    let later = (run-AllTold ts s (start-AllTold s start)).1 in
    not_again (run ts s).control.status
      (subst (λ x. follows x (run ts s).control.status ≡ true) e later)
