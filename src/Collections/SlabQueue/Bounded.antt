-- ===== src/Collections/SlabQueue/Bounded.antt =====
-- src/collections/slab_queue.rs: traversal of a queue of which nothing is known. The shared memory
-- may hold cycles, stray links and records of any kind.
use ngx_rust.Prelude.{
  ℕ, zero, suc, ◌+◌, ◌-◌, ◌≤◌, ◌≡◌, refl, sym, ap, ◌∙◌, subst, ◌≢◌, ◌∷◌, arith, Option, none, some,
  true, false, Result, ok, err, length,
}
use ngx_rust.Collections.NgxQueue.{Links}
use ngx_rust.Collections.SlabQueue.{
  SlabQueue, SlabQueueEntry, SlabQueueError, SlabQueueIter, EntryHandle, iter, next_entry, advance,
  next,
}
use ngx_rust.Collections.SlabQueue.Traversal.{
  Item, collect, collect-done, collect-stop, collect-item,
}

module _ (t : SlabQueueEntry) (q : SlabQueue) (h : Links) where
  -- What one call of `next` can do on any heap.
  abbrev Outcome : SlabQueueIter → Option Item × SlabQueueIter → Type 0
  Outcome it (none, it') = Unit {0}
  Outcome it (some (err e), it') = it'.done ≡ true
  Outcome it (some (ok e), it') =
      (it.yielded ≢ it.max_entries)
      × (it'.done ≡ false)
      × (it'.yielded ≡ it.yielded + 1)
      × (it'.max_entries ≡ it.max_entries)

  next_entry-some :
      (it it' : SlabQueueIter) (e : EntryHandle)
      → it.done ≡ false
      → next_entry t q h it ≡ ok (some (e, it'))
      → (it.yielded ≢ it.max_entries)
        × (it'.done ≡ false)
        × (it'.yielded ≡ it.yielded + 1)
        × (it'.max_entries ≡ it.max_entries)
  unfolding next_entry
  next_entry-some it it' e d k = ground arith

  next-active :
      (it : SlabQueueIter) → it.done ≡ false → next t q h it ≡ advance it (next_entry t q h it)
  unfolding next
  next-active it d = simp d

  next-Outcome : (it : SlabQueueIter) → it.done ≡ false → Outcome it (next t q h it)
  unfolding advance
  next-Outcome it d = subst (Outcome it) (sym (next-active it d)) (cases (next_entry t q h it) refl)
    where
      cases :
          (r : Result SlabQueueError (Option (EntryHandle × SlabQueueIter)))
          → next_entry t q h it ≡ r
          → Outcome it (advance it r)
      cases (ok none) e = tt
      cases (ok (some (x, it'))) e = next_entry-some it it' x d e
      cases (err x) e = refl

  length-collect :
      (f m : ℕ) (it : SlabQueueIter)
      → it.done ≡ false
      → it.yielded + m ≡ it.max_entries
      → length (collect t q h f it) ≤ m + 1
  length-collect zero m it d e = unfold collect in (omega arith)
  length-collect (suc f) m it d e =
      cases (next t q h it) refl (next-Outcome it d) (length-collect f (m - 1))
    where
      cases :
          (p : Option Item × SlabQueueIter)
          → next t q h it ≡ p
          → Outcome it p
          → ((k : SlabQueueIter)
              → k.done ≡ false
              → k.yielded + (m - 1) ≡ k.max_entries
              → length (collect t q h f k) ≤ m - 1 + 1)
          → length (collect t q h (suc f) it) ≤ m + 1
      cases (none, k) s o ih = rw (collect-stop t q h f it (ap (λ p. p.0) s)) (omega arith)
      cases (some (err x), k) s o ih =
          rw (collect-item t q h f it k (err x) s, collect-done t q h f k o) (omega arith)
      cases (some (ok x), k) s o ih =
          rw (collect-item t q h f it k (ok x) s) (omega (arith, ih k o.1 (omega arith)))

  -- One call and what follows it, for two numbers of further calls.
  collect-same :
      (f g m : ℕ) (it : SlabQueueIter) (p : Option Item × SlabQueueIter)
      → next t q h it ≡ p
      → Outcome it p
      → it.yielded + m ≡ it.max_entries
      → ((k : SlabQueueIter)
          → k.done ≡ false
          → k.yielded + (m - 1) ≡ k.max_entries
          → m ≢ 0
          → collect t q h f k ≡ collect t q h g k)
      → collect t q h (suc f) it ≡ collect t q h (suc g) it
  collect-same f g m it (none, k) s o e ih =
      collect-stop t q h f it (ap (λ p. p.0) s) ∙ sym (collect-stop t q h g it (ap (λ p. p.0) s))
  collect-same f g m it (some (err x), k) s o e ih =
      rw (collect-item t q h f it k (err x) s, collect-item t q h g it k (err x) s)
        (rw (collect-done t q h f k o, collect-done t q h g k o))
  collect-same f g m it (some (ok x), k) s o e ih =
      rw (collect-item t q h f it k (ok x) s, collect-item t q h g it k (ok x) s)
        (ap (λ l. ok x ∷ l) (ih k o.1 (omega arith) (omega arith)))

  collect-stable :
      (f m : ℕ) (it : SlabQueueIter)
      → it.done ≡ false
      → it.yielded + m ≡ it.max_entries
      → collect t q h (suc (m + suc f)) it ≡ collect t q h (suc (suc m)) it
  collect-stable f zero it d e =
      collect-same (zero + suc f) 1 zero it (next t q h it) refl (next-Outcome it d) e
        (λ k a b n. absurd (n refl))
  collect-stable f (suc m) it d e =
      collect-same (suc m + suc f) (suc (suc m)) (suc m) it (next t q h it) refl (next-Outcome it d)
        e
        (λ k a b n.
          let c : suc m + suc f ≡ suc (m + suc f) = omega arith in
          rw c (collect-stable f m k a (omega arith)))

  -- Whatever the shared memory holds, a traversal with the bound `m` yields at most `m + 1` items,
  -- and it is over after `m + 2` calls: further calls yield nothing.
  pub traversal_bounded :
      (m f : ℕ)
      → (length (collect t q h f (iter q m)) ≤ m + 1)
        × (collect t q h (suc (m + suc f)) (iter q m) ≡ collect t q h (suc (suc m)) (iter q m))
  unfolding iter
  traversal_bounded m f = (
    length-collect f m (iter q m) refl (omega arith),
    collect-stable f m (iter q m) refl (omega arith),
  )
