-- ===== src/Collections/SlabQueue/Traversal.antt =====
-- src/collections/slab_queue.rs: the bounded iterator, as a `for` loop consumes it.
use mathlib.Core.List.{append_assoc}
use native.Mathlib.Nat.{add-zero, zero-add}
use ngx_rust.Prelude.{
  ℕ, zero, suc, ◌+◌, ◌<◌, ◌≡◌, refl, sym, ap, ◌∙◌, ◌≢◌, subst, List, [], ◌∷◌, ◌++◌, arith, Option,
  none, some, true, false, Result, ok, err, length,
}
use ngx_rust.Collections.NgxQueue.{Links}
use ngx_rust.Collections.NgxQueue.Segment.{All-right, last_or, head_or}
use ngx_rust.Collections.SlabQueue.{
  SlabQueue, SlabQueueEntry, SlabQueueError, SlabQueueIter, EntryHandle, traversal_limit, iter,
  next_node, next_entry, next,
}
use ngx_rust.Collections.SlabQueue.Valid.{
  Holds, IsEntryNode, queue_parts-Holds, node_links-Holds, entry_parts-IsEntryNode,
}
use ngx_rust.Collections.SlabQueue.Access.{handle, split_last}

abbrev pub Item : Type 0
Item = Result SlabQueueError EntryHandle

-- `for item in iter`, for at most so many items.
unfoldable pub collect : SlabQueueEntry → SlabQueue → Links → ℕ → SlabQueueIter → List Item
collect t q h zero it = []
collect t q h (suc f) it =
    let (item, it') = next t q h it in elim item [ none ↦ [] | some r ↦ r ∷ collect t q h f it' ]

-- What a caller with a bound should see of the nodes `xs`: the first entries up to the bound, and
-- an error if there are more.
unfoldable pub bounded : SlabQueueEntry → ℕ → List ℕ → List Item
bounded t m [] = []
bounded t zero (x ∷ xs) = err traversal_limit ∷ []
bounded t (suc m) (x ∷ xs) = ok (handle t x) ∷ bounded t m xs

last_or-snoc : (a : ℕ) (xs : List ℕ) (y : ℕ) → last_or a (xs ++ y ∷ []) ≡ y
last_or-snoc a [] y = refl
last_or-snoc a (x ∷ xs) y = last_or-snoc x xs y

module _ (t : SlabQueueEntry) (q : SlabQueue) (h : Links) where
  abbrev at : List ℕ → ℕ → ℕ → SlabQueueIter
  at xs n m = record { current = last_or q.head xs; yielded = n; max_entries = m; done = false }

  next_node-Holds :
      (xs ys : List ℕ) (n m : ℕ)
      → Holds t q h (xs ++ ys)
      → next_node t q h (at xs n m) ≡ ok (head_or q.head ys)
  unfolding next_node
  next_node-Holds [] ys n m v = ground (arith, queue_parts-Holds t q h ys v)
  next_node-Holds (x ∷ xs) ys n m v =
      let (zs, e) = split_last x xs in
      let l = last_or x xs in
      let w : Holds t q h (zs ++ l ∷ ys) =
        subst (Holds t q h) (append_assoc zs (l ∷ []) ys)
          (subst (λ k. Holds t q h (k ++ ys)) (sym e) v) in
      let ne = (All-right (λ y. y ≢ q.head) zs (l ∷ ys) w.queue.distinct.0).0 in
      ground (arith, queue_parts-Holds t q h _ w, node_links-Holds t q h zs l ys w, ne)

  next-end : (xs : List ℕ) (n m : ℕ) → Holds t q h (xs ++ []) → (next t q h (at xs n m)).0 ≡ none
  unfolding next next_entry
  next-end xs n m v = ground (arith, next_node-Holds xs [] n m v)

  next-limit :
      (xs : List ℕ) (y : ℕ) (ys : List ℕ) (n : ℕ)
      → Holds t q h (xs ++ y ∷ ys)
      → next t q h (at xs n n) ≡ (some (err traversal_limit), record (at xs n n) { done = true })
  unfolding next next_entry
  next-limit xs y ys n v =
      let ne = (All-right (λ z. z ≢ q.head) xs (y ∷ ys) v.queue.distinct.0).0 in
      ground (arith, next_node-Holds xs (y ∷ ys) n n v, ne)

  next-entry :
      (xs : List ℕ) (y : ℕ) (ys : List ℕ) (n m : ℕ)
      → n ≢ m
      → Holds t q h (xs ++ y ∷ ys)
      → next t q h (at xs n m)
        ≡ (some (ok (handle t y)), record (at xs n m) { current = y; yielded = n + 1 })
  unfolding next next_entry
  next-entry xs y ys n m k v =
      let ne = (All-right (λ z. z ≢ q.head) xs (y ∷ ys) v.queue.distinct.0).0 in
      let e = (All-right (IsEntryNode t q) xs (y ∷ ys) v.entries).0 in
      ground (
        arith,
        next_node-Holds xs (y ∷ ys) n m v,
        ne,
        k,
        node_links-Holds t q h xs y ys v,
        entry_parts-IsEntryNode t q y e,
      )

  pub collect-done : (f : ℕ) (it : SlabQueueIter) → it.done ≡ true → collect t q h f it ≡ []
  unfolding collect next
  collect-done zero it e = refl
  collect-done (suc f) it e = rw e

  pub collect-stop :
      (f : ℕ) (it : SlabQueueIter) → (next t q h it).0 ≡ none → collect t q h (suc f) it ≡ []
  unfolding collect
  collect-stop f it e = rw (e, collect)

  pub collect-item :
      (f : ℕ) (it it' : SlabQueueIter) (r : Item)
      → next t q h it ≡ (some r, it')
      → collect t q h (suc f) it ≡ r ∷ collect t q h f it'
  unfolding collect
  collect-item f it it' r e =
      rw (e, collect) (ap (λ (p : Option Item × SlabQueueIter). r ∷ collect t q h f p.1) e)

  collect-from :
      (xs ys : List ℕ) (n m f : ℕ)
      → length ys < f
      → Holds t q h (xs ++ ys)
      → collect t q h f (at xs n (n + m)) ≡ bounded t m ys
  unfolding bounded
  collect-from xs ys n m zero lt v = absurd (omega arith)
  collect-from xs [] n m (suc f) lt v = collect-stop f _ (next-end xs n (n + m) v)
  collect-from xs (y ∷ ys) n zero (suc f) lt v = rw add-zero (
      collect-item f _ _ _ (next-limit xs y ys n v)
      ∙ ap (λ l. err traversal_limit ∷ l) (collect-done f _ refl))
  collect-from xs (y ∷ ys) n (suc m) (suc f) lt v =
      let w : Holds t q h ((xs ++ y ∷ []) ++ ys) =
        subst (Holds t q h) (sym (append_assoc xs (y ∷ []) ys)) v in
      let ih = collect-from (xs ++ y ∷ []) ys (n + 1) m f (omega arith) w in
      let e : n + 1 + m ≡ n + suc m = omega arith in
      collect-item f _ _ _ (next-entry xs y ys n (n + suc m) (omega arith) v)
      ∙ ap (λ l. ok (handle t y) ∷ l) (rw (last_or-snoc q.head xs y, e) at ih)

  -- A traversal of a queue that holds the nodes `xs`, with the bound `m`, yields their entries
  -- front to back and ends; if there are more than `m`, it yields the first `m`, then the error
  -- `TraversalLimit`, and ends.
  pub traversal-Holds :
      (xs : List ℕ) (m f : ℕ)
      → length xs < f
      → Holds t q h xs
      → collect t q h f (iter q m) ≡ bounded t m xs
  unfolding iter
  traversal-Holds xs m f lt v = rw zero-add at (collect-from [] xs 0 m f lt v)
