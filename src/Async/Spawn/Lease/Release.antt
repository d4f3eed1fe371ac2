-- ===== src/Async/Spawn/Lease/Release.antt =====
-- src/async_/spawn/scheduler.rs: what the release of an active lease does.
use ngx_rust.Prelude.{
  ℕ, zero, suc, ◌+◌, ◌-◌, ◌≡◌, ◌≤◌, refl, sym, ap, ◌∙◌, subst, Bool, true, false, ◌&&◌, ◌||◌, not,
  Option, none, some, List, [], ◌∷◌, ◌==◌, if◌then◌else◌, ok, err, arith, if-elim,
}
use ngx_rust.Async.Spawn.Scheduler.{
  Scheduler, drain_for_shutdown, finish_shutdown, processing_on_current_worker,
}
use ngx_rust.Async.Spawn.Lease.{
  Worker, Lease, World, is_stopped, Released, wrong_worker, processing, shut_down, release_last,
  release_from, release_worker_lease, System, Step, run, begin,
}
use ngx_rust.Async.Spawn.Lease.Counted.{bit, count, Counted, Owned, run-Counted}

abbrev pub nth : ℕ → List Lease → Option Lease
nth i [] = none
nth zero (l ∷ ls) = some l
nth (suc i) (l ∷ ls) = nth i ls

some_injective : (x y : Lease) → ◌≡◌ {A = Option Lease} (some x) (some y) → x ≡ y
some_injective x y e = ap (λ (o : Option Lease). elim o [ none ↦ x | some z ↦ z ]) e

nth-Owned :
    (i identity : ℕ) (ls : List Lease) (l : Lease)
    → nth i ls ≡ some l
    → l.active ≡ true
    → Owned identity ls
    → ((l.identity == identity) ≡ true) × (1 ≤ count ls)
nth-Owned i identity [] l e h own = absurd (cc)
nth-Owned zero identity (x ∷ ls) l e h own =
    let same = some_injective x l e in
    let here : (l.active && not (l.identity == identity)) ≡ false =
      subst (λ y. (y.active && not (y.identity == identity)) ≡ false) same own.0 in
    (ground (arith, here), subst (λ y. 1 ≤ bit y + count ls) (sym same) (ground arith))
nth-Owned (suc i) identity (x ∷ ls) l e h own =
    let (same, some_left) = nth-Owned i identity ls l e h own.1 in (same, omega (arith, some_left))

shut_down-stopped : (s : Scheduler) → is_stopped (shut_down s) ≡ true
unfolding shut_down drain_for_shutdown finish_shutdown
shut_down-stopped s = ground arith

abbrev gate : Bool → Released → Released → Released
gate t a b = if t then a else b

release-active :
    (current : ℕ) (l : Lease) (w : World) (k : Worker)
    → w.worker ≡ some k
    → l.active ≡ true
    → (k.identity == l.identity) ≡ true
    → processing_on_current_worker current k.scheduler ≡ false
    → (k.leases == 0) ≡ false
    → release_worker_lease current l w ≡ (
        if k.leases - 1 == 0 then release_last k l w else (
          ok false,
          record l { active = false },
          record w { worker = some (record k { leases = k.leases - 1 }) },
        ))
unfolding release_worker_lease
release-active current l w k e active same idle leased =
    ap (λ t. gate (not t) (ok false, l, w) (release_from current w.worker l w)) active
    ∙ ap (λ o. release_from current o l w) e
    ∙ ap
        (λ t.
          gate (not t) (err wrong_worker, l, w)
            (gate busy (err processing, l, w) (gate none_left (err wrong_worker, l, w) rest)))
        same
    ∙ ap (λ t. gate t (err processing, l, w) (gate none_left (err wrong_worker, l, w) rest)) idle
    ∙ ap (λ t. gate t (err wrong_worker, l, w) rest) leased
  where
    busy : Bool
    busy = processing_on_current_worker current k.scheduler

    none_left : Bool
    none_left = k.leases == 0

    rest : Released
    rest = if k.leases - 1 == 0 then release_last k l w else (
      ok false,
      record l { active = false },
      record w { worker = some (record k { leases = k.leases - 1 }) },
    )

-- After any acquisitions and releases, whatever the scheduler did in between, an active lease is
-- released unless the scheduler is processing. The release says that it stopped the scheduler exactly
-- where no other active lease is left and it had not stopped before; the scheduler is then stopped, and
-- otherwise as it was. The worker counts the active leases that are left.
pub run-release :
    (usize_max current i : ℕ) (os : List Step) (k : Worker) (l : Lease)
    → (run usize_max current os begin).world.worker ≡ some k
    → nth i (run usize_max current os begin).held ≡ some l
    → l.active ≡ true
    → processing_on_current_worker current k.scheduler ≡ false
    → let s = run usize_max current os begin in
      let r = release_worker_lease current l s.world in
      let last = count s.held == 1 in
      (r.0 ≡ ok (last && not (is_stopped k.scheduler)))
      × (r.1.active ≡ false)
      × ((k' : Worker) × (r.2.worker ≡ some k')
          × (k'.leases ≡ count s.held - 1)
          × (is_stopped k'.scheduler ≡ (last || is_stopped k.scheduler)))
run-release usize_max current i os k l e at active idle =
    subst Done (sym (release-active current l s.world k e active same idle leased)) (
      if-elim Done (k.leases - 1 == 0) _ _
        (λ last. (
          ground (arith, counted.0, own.1),
          refl,
          (
            record k { scheduler = shut_down k.scheduler; leases = 0; tasks = [] },
            refl,
            ground (arith, counted.0),
            ground (arith, counted.0, own.1, shut_down-stopped k.scheduler),
          ),
        ))
        (λ more. (
          ground (arith, counted.0, own.1),
          refl,
          (
            record k { leases = k.leases - 1 },
            refl,
            ground (arith, counted.0),
            ground (arith, counted.0, own.1),
          ),
        )))
  where
    s : System
    s = run usize_max current os begin

    Done : Released → Type 0
    Done r =
        (r.0 ≡ ok ((count s.held == 1) && not (is_stopped k.scheduler)))
        × (r.1.active ≡ false)
        × ((k' : Worker) × (r.2.worker ≡ some k')
            × (k'.leases ≡ count s.held - 1)
            × (is_stopped k'.scheduler ≡ ((count s.held == 1) || is_stopped k.scheduler)))

    counted : (k.leases ≡ count s.held) × Owned k.identity s.held
    counted = subst (λ o. Counted o s.held) e (run-Counted usize_max current os begin refl)

    own : ((l.identity == k.identity) ≡ true) × (1 ≤ count s.held)
    own = nth-Owned i k.identity s.held l at active counted.1

    same : (k.identity == l.identity) ≡ true
    same = ground (arith, own.0)

    leased : (k.leases == 0) ≡ false
    leased = ground (arith, own.1, counted.0)
