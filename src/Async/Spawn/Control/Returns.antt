-- ===== src/Async/Spawn/Control/Returns.antt =====
-- src/async_/spawn/scheduler.rs: how long an operation on a `TaskControl` may take.
use ngx_rust.Prelude.{
  ℕ, ◌+◌, ◌-◌, ◌≤◌, ◌≡◌, refl, sym, ap, subst, ◌≢◌, Bool, true, false, List, [], ◌∷◌, arith,
  put-same, put-other, ◌==◌, if◌then◌else◌, Option, none, some,
}
use native.Mathlib.Decide.{ℕ_discrete}
use ngx_rust.Async.Spawn.Control.{
  TaskStatus, active, cancel_requested, ready, canceled, scheduler_failed, TaskControl, Thread,
  load, seen, waking, returned, advance, exchange, exchanged, desired, Operation, request_cancel,
  fail_scheduler, finish, as_raw, from_raw,
}
use ngx_rust.Async.Spawn.Control.Terminal.{follows, Told, from_raw-as_raw, as_raw-eq}
use ngx_rust.Async.Spawn.Control.Interleaving.{
  System, turn, run, IsStart, AllTold, start-AllTold, turn-AllTold,
}

-- How often the status can still change.
abbrev rank : TaskStatus → ℕ
rank active = 2
rank cancel_requested = 1
rank s = 0

-- The accesses that a thread makes at most: one exchange for each change of the status that it
-- misses, and where the scheduler is gone a request for cancellation goes on as `finish`.
abbrev pub accesses : Thread → ℕ
accesses (load request_cancel) = 9
accesses (load op) = 5
accesses (seen request_cancel s) = 6 + rank s
accesses (seen op s) = 2 + rank s
accesses (waking op s) = 1
accesses (returned op s) = 0

-- A status that is not the one seen is nearer to the end.
rank-lt :
    (s now : TaskStatus) → follows s now ≡ true → as_raw now ≢ as_raw s → rank now ≤ rank s - 1
unfolding as_raw
rank-lt active active h n = absurd (n refl)
rank-lt active cancel_requested h n = omega arith
rank-lt active ready h n = omega arith
rank-lt active canceled h n = omega arith
rank-lt active scheduler_failed h n = omega arith
rank-lt cancel_requested active h n = cc
rank-lt cancel_requested cancel_requested h n = absurd (n refl)
rank-lt cancel_requested ready h n = cc
rank-lt cancel_requested canceled h n = omega arith
rank-lt cancel_requested scheduler_failed h n = omega arith
rank-lt ready now h n = ground arith
rank-lt canceled now h n = ground arith
rank-lt scheduler_failed now h n = ground arith

abbrev cost : Bool → ℕ
cost true = 0
cost false = 1

exchanged-accesses :
    (op : Operation) (s next : TaskStatus) (c : TaskControl)
    → desired op s ≡ some next
    → accesses (exchanged op next c).0 ≤ accesses (seen op s) - 1
unfolding exchanged desired
exchanged-accesses request_cancel s next c h = ground arith
exchanged-accesses fail_scheduler s next c h = ground arith
exchanged-accesses (finish d) s next c h = ground arith

rank_live : (op : Operation) (s next : TaskStatus) → desired op s ≡ some next → 1 ≤ rank s
unfolding desired
rank_live request_cancel s next h = ground arith
rank_live fail_scheduler s next h = ground arith
rank_live (finish d) s next h = ground arith

rank-le : (s now : TaskStatus) → follows s now ≡ true → rank now ≤ rank s
rank-le s now f = elim (ℕ_discrete (as_raw now) (as_raw s)) [
  | yes e ↦ subst (λ x. rank x ≤ rank s) (sym (as_raw-eq now s e)) (omega arith)
  | no n ↦ omega (arith, rank-lt s now f n)
]

accesses-seen :
    (op : Operation) (s now : TaskStatus) (n : ℕ)
    → rank now + n ≤ rank s
    → accesses (seen op now) + n ≤ accesses (seen op s)
accesses-seen request_cancel s now n h = omega arith
accesses-seen fail_scheduler s now n h = omega arith
accesses-seen (finish d) s now n h = omega arith

missed-accesses :
    (op : Operation) (s next now : TaskStatus)
    → desired op s ≡ some next
    → follows s now ≡ true
    → as_raw now ≢ as_raw s
    → accesses (seen op now) ≤ accesses (seen op s) - 1
missed-accesses op s next now h f n =
    ground (arith, accesses-seen op s now 1, rank-lt s now f n, rank_live op s next h)

exchange-accesses :
    (op : Operation) (s : TaskStatus) (next : Option TaskStatus) (spurious : Bool) (c : TaskControl)
    → follows s c.status ≡ true
    → desired op s ≡ next
    → accesses (exchange op s next spurious c).0 ≤ accesses (seen op s) - cost spurious
unfolding exchange
exchange-accesses op s none spurious c f h = omega arith
exchange-accesses op s (some next) true c f h =
    ground (arith, accesses-seen op s c.status 0, rank-le s c.status f, from_raw-as_raw c.status)
exchange-accesses op s (some next) false c f h = ground (
  arith,
  exchanged-accesses op s next c h,
  missed-accesses op s next c.status h f,
  from_raw-as_raw c.status,
)

rank-bound : (s : TaskStatus) → rank s ≤ 2
rank-bound active = omega arith
rank-bound cancel_requested = omega arith
rank-bound ready = omega arith
rank-bound canceled = omega arith
rank-bound scheduler_failed = omega arith

advance-accesses :
    (t : Thread) (spurious : Bool) (c : TaskControl)
    → Told t c.status
    → accesses (advance t spurious c).0 ≤ accesses t - cost spurious
unfolding advance
advance-accesses (load request_cancel) spurious c k =
    ground (arith, rank-bound (from_raw (as_raw c.status)))
advance-accesses (load fail_scheduler) spurious c k =
    ground (arith, rank-bound (from_raw (as_raw c.status)))
advance-accesses (load (finish d)) spurious c k =
    ground (arith, rank-bound (from_raw (as_raw c.status)))
advance-accesses (seen op s) spurious c k =
    exchange-accesses op s (desired op s) spurious c k.1 refl
advance-accesses (waking op s) spurious c k = ground arith
advance-accesses (returned op s) spurious c k = ground arith

-- The turns of a thread in which its exchange does not fail spuriously.
unfoldable pub turns : ℕ → List (ℕ × Bool) → ℕ
turns i [] = 0
turns i ((j, spurious) ∷ ts) = (if j == i then cost spurious else 0) + turns i ts

turn-accesses :
    (i j : ℕ) (spurious : Bool) (s : System)
    → AllTold s
    → accesses ((turn (j, spurious) s).threads i)
      ≤ accesses (s.threads i) - (if j == i then cost spurious else 0)
unfolding turn
turn-accesses i j spurious s k = ground (
  arith,
  put-same j t s.threads,
  put-other j t s.threads i,
  ap accesses (put-same j t s.threads),
  advance-accesses (s.threads j) spurious s.control (k j),
)
  where
    t : Thread
    t = (advance (s.threads j) spurious s.control).0

run-accesses :
    (ts : List (ℕ × Bool)) (s : System) (i : ℕ)
    → AllTold s
    → accesses ((run ts s).threads i) ≤ accesses (s.threads i) - turns i ts
unfolding run turns
run-accesses [] s i k = omega arith
run-accesses ((j, spurious) ∷ ts) s i k = omega (
  arith,
  turn-accesses i j spurious s k,
  run-accesses ts (turn (j, spurious) s) i (turn-AllTold (j, spurious) s k).0,
)

returned_of_accesses :
    (t : Thread) → accesses t ≡ 0 → (op : Operation) × (r : TaskStatus) × (t ≡ returned op r)
returned_of_accesses (returned op r) h = (op, r, refl)
returned_of_accesses (load request_cancel) h = absurd (omega arith)
returned_of_accesses (load fail_scheduler) h = absurd (omega arith)
returned_of_accesses (load (finish d)) h = absurd (omega arith)
returned_of_accesses (seen request_cancel s) h = absurd (omega arith)
returned_of_accesses (seen fail_scheduler s) h = absurd (omega arith)
returned_of_accesses (seen (finish d) s) h = absurd (omega arith)
returned_of_accesses (waking op s) h = absurd (omega arith)

start-accesses : (op : Operation) → accesses (load op) ≤ 9
start-accesses request_cancel = omega arith
start-accesses fail_scheduler = omega arith
start-accesses (finish d) = omega arith

-- Whatever the other threads do between, a thread's operation on a task has returned after nine
-- of its turns in which no exchange fails spuriously.
pub run-returns :
    (ts : List (ℕ × Bool)) (s : System) (i : ℕ)
    → IsStart s
    → 9 ≤ turns i ts
    → (op : Operation) × (r : TaskStatus) × ((run ts s).threads i ≡ returned op r)
run-returns ts s i start n =
    let (op, e, v) = start i in
    returned_of_accesses ((run ts s).threads i)
      (omega (arith, run-accesses ts s i (start-AllTold s start), start-accesses op, ap accesses e))
