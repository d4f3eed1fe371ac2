-- ===== src/Async/Spawn/Control/Wakeup.antt =====
-- src/async_/spawn/task.rs: `LocalTask::poll` beside the threads that may end its task. The poll
-- looks at the status, registers its waker, and looks again; the other threads run in between.
use ngx_rust.Prelude.{
  ℕ, ◌≡◌, refl, sym, ap, subst, ◌⊎◌, inl, inr, Bool, true, false, List, [], ◌∷◌, arith, put-same,
  put-other, ◌==◌, if◌then◌else◌, Option, none, some, ◌&&◌, not, Bool-cases,
}
use ngx_rust.Async.Spawn.Control.{
  TaskStatus, TaskControl, Thread, load, seen, waking, returned, advance, exchange, exchanged,
  desired, Operation, request_cancel, fail_scheduler, finish, as_raw, fails, wake, wake_taken,
  set_waker,
}
use ngx_rust.Async.Spawn.Control.Interleaving.{System, turn}

-- Between the accesses of a poll; `failed` is the completed handle.
pub data Poll : Type 0 where
  idle checked : Poll
  registered pending : ℕ → Poll
  failed : TaskStatus → Poll

pub record Polled : Type 0 where
  pub system : System
  pub poll : Poll

pub data Move : Type 0 where
  thread : ℕ → Bool → Move
  poll_with : ℕ → Move

-- The next access of a poll with the waker `w`. A pending handle is polled anew.
unfoldable pub poll_turn : ℕ → Poll → TaskControl → Poll × TaskControl
poll_turn w idle c = (if fails c.status then failed c.status else checked, c)
poll_turn w checked c = (registered w, set_waker w c)
poll_turn w (registered v) c = (if fails c.status then failed c.status else pending v, c)
poll_turn w (pending v) c = (if fails c.status then failed c.status else checked, c)
poll_turn w (failed r) c = (failed r, c)

unfoldable pub move : Move → Polled → Polled
move (thread i spurious) s = record s { system = turn (i, spurious) s.system }
move (poll_with w) s =
    let (p, c) = poll_turn w s.poll s.system.control in
    record { system = record { control = c; threads = s.system.threads }; poll = p }

unfoldable pub moves : List Move → Polled → Polled
moves [] s = s
moves (m ∷ ms) s = moves ms (move m s)

abbrev pub first : List ℕ → Option ℕ
first [] = none
first (w ∷ ws) = some w

abbrev pub is_waking : Thread → Bool
is_waking (waking op r) = true
is_waking t = false

-- The waker `w` is the last one that was called.
abbrev pub Called : ℕ → TaskControl → Type 0
Called w c = (c.waker ≡ none) × (first c.woken ≡ some w)

abbrev pub Kept : ℕ → TaskControl → Type 0
Kept w c = (c.waker ≡ some w) ⊎ Called w c

-- A waker that was called, or is about to be.
abbrev pub IsHeard : ℕ → System → Type 0
IsHeard w s = Called w s.control ⊎ ((i : ℕ) × (is_waking (s.threads i) ≡ true))

abbrev pub Watched : Poll → System → Type 0
Watched idle s = Unit
Watched checked s = Unit
Watched (registered w) s = Kept w s.control
Watched (pending w) s = Kept w s.control × (fails s.control.status ≡ true → IsHeard w s)
Watched (failed r) s = Unit

-- What an access does to the waker: none that is kept is dropped uncalled.
wake-Kept : (w : ℕ) (c : TaskControl) → Kept w c → Called w (wake c)
unfolding wake
wake-Kept w c k = by_waker c.waker refl
  where
    by_waker : (v : Option ℕ) → c.waker ≡ v → Called w (wake_taken v c)
    by_waker none e = ground arith
    by_waker (some v) e = ground arith

wake-Called : (w : ℕ) (c : TaskControl) → Called w c → Called w (wake c)
wake-Called w c k = wake-Kept w c (inr k)

-- After an access that leaves a failure, the waker was called, or the thread is about to wake, or
-- the failure was there before and this thread was not about to wake.
abbrev Attended : ℕ → Thread → TaskControl → Thread × TaskControl → Type 0
Attended w t c r =
    Kept w r.1
    × (Called w c → Called w r.1)
    × (fails r.1.status ≡ true
        → Called w r.1
          ⊎ ((is_waking r.0 ≡ true) ⊎ ((fails c.status ≡ true) × (is_waking t ≡ false))))

exchanged-Attended :
    (w : ℕ) (op : Operation) (s next : TaskStatus) (c : TaskControl)
    → Kept w c
    → desired op s ≡ some next
    → Attended w (seen op s) c (exchanged op next c)
unfolding exchanged desired
exchanged-Attended w request_cancel s next c k h = ground arith
exchanged-Attended w fail_scheduler s next c k h = (k, (λ x. x), λ f. inr (inl refl))
exchanged-Attended w (finish d) s next c k h = ground arith

exchange-Attended :
    (w : ℕ) (op : Operation) (s : TaskStatus) (next : Option TaskStatus) (spurious : Bool)
    (c : TaskControl)
    → Kept w c
    → desired op s ≡ next
    → Attended w (seen op s) c (exchange op s next spurious c)
unfolding exchange
exchange-Attended w op s none spurious c k h = (k, (λ x. x), λ f. inr (inr (f, refl)))
exchange-Attended w op s (some next) spurious c k h =
    elim (Bool-cases ((as_raw c.status == as_raw s) && not spurious)) [
      | inl e ↦ rw e (exchanged-Attended w op s next c k h)
      | inr e ↦ rw e (k, (λ x. x), λ f. inr (inr (f, refl)))
    ]

advance-Attended :
    (w : ℕ) (t : Thread) (spurious : Bool) (c : TaskControl)
    → Kept w c
    → Attended w t c (advance t spurious c)
unfolding advance
advance-Attended w (load op) spurious c k = (k, (λ x. x), λ f. inr (inr (f, refl)))
advance-Attended w (seen op s) spurious c k =
    exchange-Attended w op s (desired op s) spurious c k refl
advance-Attended w (waking op s) spurious c k =
    (inr (wake-Kept w c k), wake-Called w c, λ f. inl (wake-Kept w c k))
advance-Attended w (returned op s) spurious c k = (k, (λ x. x), λ f. inr (inr (f, refl)))

turn-IsHeard :
    (w j : ℕ) (spurious : Bool) (s : System)
    → Kept w s.control
    → (fails s.control.status ≡ true → IsHeard w s)
    → fails (turn (j, spurious) s).control.status ≡ true
    → IsHeard w (turn (j, spurious) s)
unfolding turn
turn-IsHeard w j spurious s k heard f = elim (attended.2 f) [
  | inl called ↦ inl called
  | inr (inl wakes) ↦ inr (j, subst (λ x. is_waking x ≡ true) (sym (put-same j t s.threads)) wakes)
  | inr (inr (before, silent)) ↦ still (heard before) silent
]
  where
    t : Thread
    t = (advance (s.threads j) spurious s.control).0

    attended : Attended w (s.threads j) s.control (advance (s.threads j) spurious s.control)
    attended = advance-Attended w (s.threads j) spurious s.control k

    still : IsHeard w s → is_waking (s.threads j) ≡ false → IsHeard w (turn (j, spurious) s)
    still (inl called) silent = inl (attended.1 called)
    still (inr (i, wakes)) silent = inr (
      i,
      subst (λ x. is_waking x ≡ true)
          (sym (put-other j t s.threads i (λ e. cc (ap (λ x. is_waking (s.threads x)) e)))) wakes,
    )

turn-Watched :
    (p : Poll) (j : ℕ) (spurious : Bool) (s : System)
    → Watched p s
    → Watched p (turn (j, spurious) s)
turn-Watched idle j spurious s h = tt
turn-Watched checked j spurious s h = tt
turn-Watched (registered w) j spurious s h =
    unfold turn in (advance-Attended w (s.threads j) spurious s.control h).0
turn-Watched (pending w) j spurious s h = (
  unfold turn in (advance-Attended w (s.threads j) spurious s.control h.0).0,
  turn-IsHeard w j spurious s h.0 h.1,
)
turn-Watched (failed r) j spurious s h = tt

poll_turn-Watched :
    (w : ℕ) (p : Poll) (s : System)
    → Watched p s
    → let (p', c) = poll_turn w p s.control in
      Watched p' (record { control = c; threads = s.threads })
unfolding poll_turn set_waker
poll_turn-Watched w idle s h = elim (Bool-cases (fails s.control.status)) [
  | inl e ↦ rw e tt
  | inr e ↦ rw e tt
]
poll_turn-Watched w checked s h = inl refl
poll_turn-Watched w (registered v) s h = elim (Bool-cases (fails s.control.status)) [
  | inl e ↦ rw e tt
  | inr e ↦ rw e (h, λ f. cc)
]
poll_turn-Watched w (pending v) s h = elim (Bool-cases (fails s.control.status)) [
  | inl e ↦ rw e tt
  | inr e ↦ rw e tt
]
poll_turn-Watched w (failed r) s h = tt

moves-Watched :
    (ms : List Move) (s : Polled)
    → Watched s.poll s.system
    → Watched (moves ms s).poll (moves ms s).system
unfolding moves move
moves-Watched [] s h = h
moves-Watched (thread i spurious ∷ ms) s h =
    moves-Watched ms (move (thread i spurious) s) (turn-Watched s.poll i spurious s.system h)
moves-Watched (poll_with w ∷ ms) s h =
    moves-Watched ms (move (poll_with w) s) (poll_turn-Watched w s.poll s.system h)

-- A handle is polled while other threads end its task, every access in any order. When a poll has
-- answered that the task is pending and the status is now a failure, the poll's waker was the last
-- one called, or some thread is about to call the one that is registered: no wake-up is lost.
pub moves-IsHeard :
    (ms : List Move) (s : Polled) (w : ℕ)
    → s.poll ≡ idle
    → (moves ms s).poll ≡ pending w
    → fails (moves ms s).system.control.status ≡ true
    → IsHeard w (moves ms s).system
moves-IsHeard ms s w start e f =
    let kept = moves-Watched ms s (subst (λ p. Watched p s.system) (sym start) tt) in
    (subst (λ p. Watched p (moves ms s).system) e kept).1 f
