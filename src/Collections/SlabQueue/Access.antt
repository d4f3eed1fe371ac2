-- ===== src/Collections/SlabQueue/Access.antt =====
-- src/collections/slab_queue.rs: reading the two ends of a queue.
use ngx_rust.Prelude.{
  ℕ, ◌≡◌, refl, ◌≢◌, List, [], ◌∷◌, ◌++◌, ap, arith, Option, none, some, Bool, true, false, ok,
}
use ngx_rust.Collections.NgxQueue.{Links}
use ngx_rust.Collections.NgxQueue.Segment.{All-right, last_or}
use ngx_rust.Collections.SlabQueue.{
  SlabQueue, SlabQueueEntry, EntryHandle, check, queue_parts, entry_parts_from_node, end_entry,
  front, back, is_empty,
}
use ngx_rust.Collections.SlabQueue.Valid.{
  Holds, IsEntryNode, queue_parts-Holds, node_links-Holds, entry_parts-IsEntryNode,
}

abbrev pub handle : SlabQueueEntry → ℕ → EntryHandle
handle t x = record { entry = t.from_queue x; payload = t.payload (t.from_queue x) }

abbrev pub last? : List ℕ → Option ℕ
last? [] = none
last? (x ∷ xs) = some (last_or x xs)

abbrev pub first? : List ℕ → Option ℕ
first? [] = none
first? (x ∷ xs) = some x

abbrev pub handle? : SlabQueueEntry → Option ℕ → Option EntryHandle
handle? t none = none
handle? t (some x) = some (handle t x)

abbrev pub null : List ℕ → Bool
null [] = true
null (x ∷ xs) = false

-- A list as its entries before the last one, and the last one.
pub split_last : (x : ℕ) (xs : List ℕ) → (ys : List ℕ) × (ys ++ last_or x xs ∷ [] ≡ x ∷ xs)
split_last x [] = ([], refl)
split_last x (y ∷ xs) = let (ys, e) = split_last y xs in (x ∷ ys, ap (λ l. x ∷ l) e)

module _ (t : SlabQueueEntry) (q : SlabQueue) where
  end_entry-Holds :
      (h : Links) (xs : List ℕ) (x : ℕ) (ys : List ℕ)
      → Holds t q h (xs ++ x ∷ ys)
      → end_entry t q h x ≡ ok (some (handle t x))
  unfolding end_entry
  end_entry-Holds h xs x ys v =
      let e = (All-right (IsEntryNode t q) xs (x ∷ ys) v.entries).0 in
      ground (
        arith,
        node_links-Holds t q h xs x ys v,
        entry_parts-IsEntryNode t q x e,
        (All-right (λ y. y ≢ q.head) xs (x ∷ ys) v.queue.distinct.0).0,
      )

  -- On a queue that holds the nodes `xs`, `front` returns the record and payload of the first
  -- node, `back` those of the last, both nothing for no nodes, and `is_empty` tells whether there
  -- are none.
  pub ends-Holds :
      (h : Links) (xs : List ℕ)
      → Holds t q h xs
      → (front t q h ≡ ok (handle? t (first? xs)))
        × (back t q h ≡ ok (handle? t (last? xs)))
        × (is_empty t q h ≡ ok (null xs))
  unfolding front back is_empty
  ends-Holds h [] v = rw (queue_parts-Holds t q h [] v) (unfold end_entry in (ground arith))
  ends-Holds h (x ∷ xs) v =
      let (ys, e) = split_last x xs in
      let w : Holds t q h (ys ++ last_or x xs ∷ []) = rw e v in
      let ne = v.queue.distinct.0.0 in
      ground (
        arith,
        queue_parts-Holds t q h (x ∷ xs) v,
        end_entry-Holds h [] x xs v,
        end_entry-Holds h ys (last_or x xs) [] w,
        node_links-Holds t q h [] x xs v,
        ne,
      )

  -- Whatever the shared memory holds, an entry that `front` returns belongs to a node that is not
  -- the sentinel, is linked with the sentinel in both directions, leads back to itself through the
  -- entry conversions, and has a record and a payload that the guard accepts.
  pub front_sound :
      (h : Links) (e : EntryHandle)
      → front t q h ≡ ok (some e)
      → (h.next q.head ≢ q.head)
        × (h.prev (h.next q.head) ≡ q.head)
        × (e.entry ≡ t.from_queue (h.next q.head))
        × (t.queue_node e.entry ≡ h.next q.head)
        × (check t q t.entry_layout e.entry ≡ ok tt)
        × (e.payload ≡ t.payload e.entry)
        × (check t q t.payload_layout e.payload ≡ ok tt)
  unfolding front end_entry queue_parts entry_parts_from_node
  front_sound h e r = ground arith
