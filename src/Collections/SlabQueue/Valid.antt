-- ===== src/Collections/SlabQueue/Valid.antt =====
-- src/collections/slab_queue.rs: a queue whose links are whole and whose records all pass the
-- guard, and what the link checks of `queue_parts` and `node_links` return for it.
use ngx_rust.Prelude.{ℕ, ◌≡◌, refl, sym, ◌≢◌, List, [], ◌∷◌, ◌++◌, arith, ok}
use ngx_rust.Collections.NgxQueue.{Links}
use ngx_rust.Collections.NgxQueue.Segment.{
  All, All-map, All-left, All-right, Fresh, Distinct, Distinct-middle, Distinct-remove, Seg-split,
  last_or, head_or, prev-last_or, next-head_or, next-last_or, prev-head_or, last_or-All,
  head_or-All, last_or-ne,
}
use ngx_rust.Collections.NgxQueue.Update.{IsQueue}
use ngx_rust.Collections.SlabQueue.{
  SlabQueue, SlabQueueEntry, check, check_node, queue_parts, node_links, entry_parts_from_node,
  node_from_entry,
}

module _ (t : SlabQueueEntry) (q : SlabQueue) where
  -- A node that passes the guard and is not null.
  pub record IsNode (node : ℕ) : Type 0 where
    pub accepted : check_node t q node ≡ ok tt
    pub nonzero : node ≢ 0

  -- The node of a record that the conversions lead to and back.
  pub record IsEntryNode (node : ℕ) : Type 0 where
    pub linked : IsNode node
    pub entry : check t q t.entry_layout (t.from_queue node) ≡ ok tt
    pub returns : t.queue_node (t.from_queue node) ≡ node
    pub payload : check t q t.payload_layout (t.payload (t.from_queue node)) ≡ ok tt

  -- The queue holds the nodes `xs`, front to back.
  pub record Holds (h : Links) (xs : List ℕ) : Type 0 where
    pub queue : IsQueue h q.head xs
    pub sentinel : IsNode q.head
    pub entries : All IsEntryNode xs

  ends_nodes : (xs : List ℕ) → All IsEntryNode xs → All IsNode xs
  ends_nodes xs v = All-map IsEntryNode IsNode xs (λ a e. e.linked) v

  module _ (h : Links) (xs : List ℕ) (v : Holds h xs) where
    pub first_IsNode : IsNode (head_or q.head xs)
    first_IsNode = head_or-All IsNode q.head xs v.sentinel (ends_nodes xs v.entries)

    pub last_IsNode : IsNode (last_or q.head xs)
    last_IsNode = last_or-All IsNode q.head xs v.sentinel (ends_nodes xs v.entries)

  pub queue_parts-Holds :
      (h : Links) (xs : List ℕ)
      → Holds h xs
      → queue_parts t q h ≡ ok (record { next = head_or q.head xs; prev = last_or q.head xs })
  unfolding queue_parts
  queue_parts-Holds h [] v =
      let a = v.sentinel in
      let s = v.queue.linked in ground (arith, a.accepted, a.nonzero, s.0, s.1)
  queue_parts-Holds h (x ∷ xs) v =
      let s = v.queue.linked in
      let a = v.sentinel in
      let b = first_IsNode h (x ∷ xs) v in
      let c = last_IsNode h (x ∷ xs) v in
      let p = prev-last_or h q.head (x ∷ xs) q.head s in
      let n = next-last_or h q.head (x ∷ xs) q.head s in
      let ne = last_or-ne q.head x xs v.queue.distinct.0 in
      ground (
        arith, a.accepted, b.accepted, b.nonzero, c.accepted, c.nonzero, s.0, s.1, p, n, ne,
        v.queue.distinct.0.0,
      )

  -- The middle entry of a split is apart from its neighbours.
  ends_apart :
      (xs : List ℕ) (x : ℕ) (ys : List ℕ)
      → Distinct (q.head ∷ xs ++ x ∷ ys)
      → (last_or q.head xs ≢ x)
        × (head_or q.head ys ≢ x)
        × (x ≢ q.head)
        × (last_or q.head xs ≡ head_or q.head ys → last_or q.head xs ≡ q.head)
  ends_apart xs x ys d = (
    last_or-All (λ y. y ≢ x) q.head xs (λ e. ne (sym e)) (All-left (λ y. y ≢ x) xs ys apart),
    head_or-All (λ y. y ≢ x) q.head ys (λ e. ne (sym e)) (All-right (λ y. y ≢ x) xs ys apart),
    ne,
    meet xs ys (Distinct-remove (q.head ∷ xs) x ys d),
  )
    where
      ne : x ≢ q.head
      ne = (All-right (λ y. y ≢ q.head) xs (x ∷ ys) d.0).0

      apart : Fresh x (xs ++ ys)
      apart = Distinct-middle xs x ys d.1

      last_in : (z : ℕ) (zs : List ℕ) (w : ℕ) → Fresh w (z ∷ zs) → last_or z zs ≢ w
      last_in z [] w f = f.0
      last_in z (u ∷ us) w f = last_in u us w f.1

      crossed : (zs : List ℕ) (y : ℕ) (us : List ℕ) → Distinct (zs ++ y ∷ us) → Fresh y zs
      crossed [] y us e = tt
      crossed (z ∷ zs) y us e =
          ((λ k. (All-right (λ w. w ≢ z) zs (y ∷ us) e.0).0 (sym k)), crossed zs y us e.1)

      meet :
          (zs us : List ℕ)
          → Distinct (q.head ∷ zs ++ us)
          → last_or q.head zs ≡ head_or q.head us
          → last_or q.head zs ≡ q.head
      meet [] us e k = refl
      meet (z ∷ zs) [] e k = k
      meet (z ∷ zs) (y ∷ us) e k = absurd (last_in z zs y (crossed (z ∷ zs) y us e.1) k)

  pub node_links-Holds :
      (h : Links) (xs : List ℕ) (x : ℕ) (ys : List ℕ)
      → Holds h (xs ++ x ∷ ys)
      → node_links t q h x ≡ ok (head_or q.head ys)
  unfolding node_links
  node_links-Holds h xs x ys v =
      let (s, r) = Seg-split h q.head xs x ys q.head v.queue.linked in
      let p = prev-last_or h q.head xs x s in
      let n = next-head_or h x ys q.head r in
      let np = next-last_or h q.head xs x s in
      let pn = prev-head_or h x ys q.head r in
      let all = ends_nodes (xs ++ x ∷ ys) v.entries in
      let a = last_or-All IsNode q.head xs v.sentinel (All-left IsNode xs (x ∷ ys) all) in
      let b = head_or-All IsNode q.head ys v.sentinel (All-right IsNode xs (x ∷ ys) all).1 in
      let c = (All-right IsNode xs (x ∷ ys) all).0 in
      let (d₁, d₂, d₃, d₄) = ends_apart xs x ys v.queue.distinct in
      ground (
        arith, p, n, np, pn, a.accepted, a.nonzero, b.accepted, b.nonzero, c.accepted, d₁, d₂, d₃,
        d₄,
      )

  pub entry_parts-IsEntryNode :
      (x : ℕ)
      → IsEntryNode x
      → entry_parts_from_node t q x
        ≡ ok (record { entry = t.from_queue x; payload = t.payload (t.from_queue x) })
  unfolding entry_parts_from_node
  entry_parts-IsEntryNode x e = ground (arith, e.linked.accepted, e.entry, e.returns, e.payload)

  -- A record whose node leads back to it: what a caller hands to `push_front` and the others.
  pub record IsEntry (entry : ℕ) : Type 0 where
    pub at_node : IsEntryNode (t.queue_node entry)
    pub round_trip : t.from_queue (t.queue_node entry) ≡ entry

  pub node_from_entry-IsEntry :
      (entry : ℕ)
      → IsEntry entry
      → t.queue_node entry ≢ q.head
      → node_from_entry t q entry ≡ ok (t.queue_node entry)
  unfolding node_from_entry
  node_from_entry-IsEntry entry e ne =
      let a : check t q t.entry_layout entry ≡ ok tt = rw e.round_trip at e.at_node.entry in
      ground (
        arith,
        a,
        e.at_node.linked.accepted,
        entry_parts-IsEntryNode (t.queue_node entry) e.at_node,
        e.round_trip,
        ne,
      )
