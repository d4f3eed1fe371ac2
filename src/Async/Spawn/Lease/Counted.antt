-- ===== src/Async/Spawn/Lease/Counted.antt =====
-- src/async_/spawn/scheduler.rs: the worker's count beside the leases that modules hold.
use ngx_rust.Prelude.{
  ℕ, zero, suc, ◌+◌, ◌-◌, ◌≡◌, ◌≤◌, refl, sym, ap, ◌∙◌, subst, Bool, true, false, ◌&&◌, not, Option,
  none, some, List, [], ◌∷◌, ◌==◌, if◌then◌else◌, Result, ok, err, arith, if-elim,
}
use ngx_rust.Async.Spawn.Scheduler.{Scheduler, check_spawn, processing_on_current_worker}
use ngx_rust.Async.Spawn.Lease.{
  Worker, Lease, World, is_stopped, is_ok, create, retire, acquire_from, acquire_worker, Acquired,
  Released, SchedulerShutdownError, wrong_worker, processing, shut_down, release_from,
  release_worker_lease, System, Step, acquire, release, change, release_nth, keep, changed, step,
  run,
}

abbrev pub bit : Lease → ℕ
bit l = if l.active then 1 else 0

abbrev pub count : List Lease → ℕ
count [] = 0
count (l ∷ ls) = bit l + count ls

-- The active leases are on the scheduler `identity`.
abbrev pub Owned : ℕ → List Lease → Type 0
Owned identity [] = Unit
Owned identity (l ∷ ls) = ((l.active && not (l.identity == identity)) ≡ false) × Owned identity ls

abbrev pub Counted : Option Worker → List Lease → Type 0
Counted none ls = count ls ≡ 0
Counted (some k) ls = (k.leases ≡ count ls) × Owned k.identity ls

none-Owned : (identity : ℕ) (ls : List Lease) → count ls ≡ 0 → Owned identity ls
none-Owned identity [] h = tt
none-Owned identity (l ∷ ls) h = (ground arith, none-Owned identity ls (ground arith))

create-Counted :
    (current : ℕ) (opens : Bool) (a : Option ℕ) (w : World) (ls : List Lease)
    → count ls ≡ 0
    → Counted w.worker ls
    → Counted
        (keep (create current opens a w) ls).world.worker
        (keep (create current opens a w) ls).held
create-Counted current opens (some other) w ls h c = c
create-Counted current true none w ls h c =
    (ground (arith, h), (ground arith, none-Owned w.fresh ls h))
create-Counted current false none w ls h c = c

acquire-Counted :
    (usize_max current : ℕ) (opens : Bool) (o : Option Worker) (w : World) (ls : List Lease)
    → w.worker ≡ o
    → Counted o ls
    → Counted
        (keep (acquire_from usize_max current opens o w) ls).world.worker
        (keep (acquire_from usize_max current opens o w) ls).held
acquire-Counted usize_max current opens none w ls e c =
    create-Counted current opens w.active w ls c (subst (λ o. Counted o ls) (sym e) c)
acquire-Counted usize_max current opens (some k) w ls e c =
    if-elim Good (is_ok (check_spawn current k.scheduler)) _ _
      (λ spawns.
        if-elim Good (k.leases == usize_max) _ _ (λ full. unchanged)
          (λ more. (ground (arith, c.0), (ground arith, c.1))))
      (λ refused.
        if-elim Good (is_stopped k.scheduler && (k.leases == 0)) _ _
          (λ over.
            create-Counted current opens w.active (retire k w) ls (ground (arith, c.0))
              (ground (arith, c.0)))
          (λ busy. unchanged))
  where
    Good : Acquired → Type 0
    Good o = Counted (keep o ls).world.worker (keep o ls).held

    unchanged : Counted w.worker ls
    unchanged = subst (λ o. Counted o ls) (sym e) c

-- A release lowers the count exactly where the lease becomes inactive.
release-bit :
    (current : ℕ) (l : Lease) (w : World) (k : Worker)
    → w.worker ≡ some k
    → (k' : Worker) × ((release_worker_lease current l w).2.worker ≡ some k')
      × (k'.identity ≡ k.identity)
      × (k'.leases + bit l ≡ k.leases + bit (release_worker_lease current l w).1)
      × (bit (release_worker_lease current l w).1 ≤ bit l)
      × ((release_worker_lease current l w).1.identity ≡ l.identity)
unfolding release_worker_lease
release-bit current l w k e =
    if-elim Lowered (not l.active) _ _ (λ over. unchanged (ok false))
      (λ held.
        subst (λ o. Lowered (release_from current o l w)) (sym e)
          (if-elim Lowered (not (k.identity == l.identity)) _ _
            (λ other. unchanged (err wrong_worker))
            (λ same.
              if-elim Lowered (processing_on_current_worker current k.scheduler) _ _
                (λ busy. unchanged (err processing))
                (λ idle.
                  if-elim Lowered (k.leases == 0) _ _ (λ zero. unchanged (err wrong_worker))
                    (λ counted.
                      if-elim Lowered (k.leases - 1 == 0) _ _
                        (λ last. (
                          record k { scheduler = shut_down k.scheduler; leases = 0; tasks = [] },
                          refl,
                          refl,
                          ground arith,
                          ground arith,
                          refl,
                        ))
                        (λ more. (
                          record k { leases = k.leases - 1 },
                          refl,
                          refl,
                          ground arith,
                          ground arith,
                          refl,
                        )))))))
  where
    Lowered : Released → Type 0
    Lowered r =
        (k' : Worker) × (r.2.worker ≡ some k')
        × (k'.identity ≡ k.identity)
        × (k'.leases + bit l ≡ k.leases + bit r.1)
        × (bit r.1 ≤ bit l)
        × (r.1.identity ≡ l.identity)

    unchanged : (q : Result SchedulerShutdownError Bool) → Lowered (q, l, w)
    unchanged q = (k, e, refl, refl, omega arith, refl)

release-none :
    (current : ℕ) (l : Lease) (w : World)
    → w.worker ≡ none
    → ((release_worker_lease current l w).2.worker ≡ none)
      × (bit (release_worker_lease current l w).1 ≡ bit l)
unfolding release_worker_lease
release-none current l w e =
    if-elim Same (not l.active) _ _ (λ over. (e, refl))
      (λ held. subst (λ o. Same (release_from current o l w)) (sym e) (e, refl))
  where
    Same : Released → Type 0
    Same r = (r.2.worker ≡ none) × (bit r.1 ≡ bit l)

release_nth-none :
    (current i : ℕ) (ls : List Lease) (w : World)
    → w.worker ≡ none
    → ((release_nth current i ls w).1.worker ≡ none)
      × (count (release_nth current i ls w).0 ≡ count ls)
release_nth-none current i [] w e = (e, refl)
release_nth-none current zero (l ∷ ls) w e =
    let (still, same) = release-none current l w e in (still, ap (λ n. n + count ls) same)
release_nth-none current (suc i) (l ∷ ls) w e =
    let (still, same) = release_nth-none current i ls w e in (still, ap (λ n. bit l + n) same)

release_nth-some :
    (current i : ℕ) (ls : List Lease) (w : World) (k : Worker)
    → w.worker ≡ some k
    → Owned k.identity ls
    → (k' : Worker) × ((release_nth current i ls w).1.worker ≡ some k')
      × (k'.identity ≡ k.identity)
      × (k'.leases + count ls ≡ k.leases + count (release_nth current i ls w).0)
      × Owned k'.identity (release_nth current i ls w).0
release_nth-some current i [] w k e own = (k, e, refl, refl, tt)
release_nth-some current zero (l ∷ ls) w k e own =
    let (k', e', same, sums, less, name) = release-bit current l w k e in
    (
      k',
      e',
      same,
      omega (arith, sums),
      (ground (arith, own.0, less, name, same), subst (λ n. Owned n ls) (sym same) own.1),
    )
release_nth-some current (suc i) (l ∷ ls) w k e own =
    let (k', e', same, sums, owned) = release_nth-some current i ls w k e own.1 in
    (k', e', same, omega (arith, sums), (ground (arith, own.0, same), owned))

release-Counted :
    (current i : ℕ) (ls : List Lease) (w : World) (o : Option Worker)
    → w.worker ≡ o
    → Counted o ls
    → Counted (release_nth current i ls w).1.worker (release_nth current i ls w).0
release-Counted current i ls w none e c =
    let (still, same) = release_nth-none current i ls w e in
    subst (λ o. Counted o (release_nth current i ls w).0) (sym still) (same ∙ c)
release-Counted current i ls w (some k) e c =
    let (k', e', same, sums, owned) = release_nth-some current i ls w k e c.1 in
    subst (λ o. Counted o (release_nth current i ls w).0) (sym e') (omega (arith, sums, c.0), owned)

changed-Counted :
    (t : Scheduler) (tasks ls : List ℕ) (o : Option Worker) (held : List Lease)
    → Counted o held
    → Counted (changed t tasks o) held
changed-Counted t tasks ls none held c = c
changed-Counted t tasks ls (some k) held c = c

pub run-Counted :
    (usize_max current : ℕ) (os : List Step) (s : System)
    → Counted s.world.worker s.held
    → Counted (run usize_max current os s).world.worker (run usize_max current os s).held
unfolding run step acquire_worker
run-Counted usize_max current [] s c = c
run-Counted usize_max current (acquire opens ∷ os) s c =
    run-Counted usize_max current os (keep (acquire_worker usize_max current opens s.world) s.held)
      (acquire-Counted usize_max current opens s.world.worker s.world s.held refl c)
run-Counted usize_max current (release i ∷ os) s c =
    let w = release_nth current i s.held s.world in
    run-Counted usize_max current os (record { world = w.1; held = w.0 })
      (release-Counted current i s.held s.world s.world.worker refl c)
run-Counted usize_max current (change t tasks ∷ os) s c =
    run-Counted usize_max current os (step usize_max current (change t tasks) s)
      (changed-Counted t tasks [] s.world.worker s.held c)
