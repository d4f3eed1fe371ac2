-- ===== src/Collections/SlabQueue/Change.antt =====
-- src/collections/slab_queue.rs: insertion, removal and movement refine operations on lists.
use ngx_rust.Prelude.{ℕ, ◌≡◌, refl, sym, ap, ◌∙◌, ◌≢◌, List, [], ◌∷◌, ◌++◌, arith, ok, err}
use ngx_rust.Collections.NgxQueue.{
  Links, set_next, set_prev, ngx_queue_insert_after, ngx_queue_insert_before, ngx_queue_remove,
}
use ngx_rust.Collections.NgxQueue.Segment.{
  All, All-append, All-left, All-right, All-map, Fresh, Distinct-middle, Seg, Seg-frame,
}
use ngx_rust.Collections.NgxQueue.Update.{
  IsQueue, update-other, insert_after-IsQueue, insert_before-IsQueue, remove-IsQueue,
}
use ngx_rust.Collections.SlabQueue.{
  SlabQueue, SlabQueueEntry, already_linked, node_from_entry, require_detached, push_front,
  push_back, remove, move_to_front,
}
use ngx_rust.Collections.SlabQueue.Valid.{
  Holds, IsEntryNode, IsEntry, queue_parts-Holds, node_links-Holds, node_from_entry-IsEntry,
}

Seg-prev_nonzero :
    (h : Links) (a : ℕ) (xs : List ℕ) (b : ℕ)
    → a ≢ 0
    → All (λ x. x ≢ 0) xs
    → Seg h a xs b
    → All (λ p. h.prev p ≢ 0) (b ∷ xs)
Seg-prev_nonzero h a [] b n z s = (λ e. n (sym s.1 ∙ e), tt)
Seg-prev_nonzero h a (x ∷ xs) b n z s =
    let (k, r) = Seg-prev_nonzero h x xs b z.0 z.1 s.2 in (k, (λ e. n (sym s.1 ∙ e), r))

-- Links of an address outside the queue may change.
cleared-IsQueue :
    (h : Links) (head p : ℕ) (xs : List ℕ)
    → Fresh p (head ∷ xs)
    → IsQueue h head xs
    → IsQueue (set_next (set_prev h p 0) p 0) head xs
cleared-IsQueue h head p xs f q = record {
  linked =
      Seg-frame h _ head xs head (update-other h.next p 0 (head ∷ xs) f)
        (update-other h.prev p 0 (head ∷ xs) f) q.linked;
  distinct = q.distinct;
}

module _ (t : SlabQueueEntry) (q : SlabQueue) where
  -- A node with a null link is none of a queue's.
  detached-Fresh :
      (h : Links) (xs : List ℕ) (x : ℕ) → Holds t q h xs → h.prev x ≡ 0 → Fresh x (q.head ∷ xs)
  detached-Fresh h xs x v z =
      All-map (λ p. h.prev p ≢ 0) (λ p. p ≢ x) (q.head ∷ xs) (λ p n e. n (ap h.prev e ∙ z))
        (Seg-prev_nonzero h q.head xs q.head v.sentinel.nonzero
          (All-map (IsEntryNode t q) (λ x. x ≢ 0) xs (λ a e. e.linked.nonzero) v.entries)
          v.queue.linked)

  module _ (h : Links) (entry : ℕ) (e : IsEntry t q entry) where
    -- Pushing a detached record succeeds: `push_front` makes its node the first of the queue and
    -- `push_back` the last, and the result is again a whole queue.
    pub push-Holds :
        (xs : List ℕ)
        → Holds t q h xs
        → h.prev (t.queue_node entry) ≡ 0
        → h.next (t.queue_node entry) ≡ 0
        → ((k : Links) × (push_front t q entry h ≡ ok k) × Holds t q k (t.queue_node entry ∷ xs))
          × ((k : Links) × (push_back t q entry h ≡ ok k)
              × Holds t q k (xs ++ t.queue_node entry ∷ []))
    unfolding push_front push_back require_detached
    push-Holds xs v zp zn =
        let x = t.queue_node entry in
        let f = detached-Fresh h xs x v zp in
        let parts = queue_parts-Holds t q h xs v in
        let node = node_from_entry-IsEntry t q entry e (λ k. f.0 (sym k)) in
        let a = e.at_node.linked.accepted in
        (
          (
            ngx_queue_insert_after h q.head x,
            ground (arith, parts, node, a, zp, zn),
            record {
              queue = insert_after-IsQueue h q.head x xs v.queue f;
              sentinel = v.sentinel;
              entries = (e.at_node, v.entries);
            },
          ),
          (
            ngx_queue_insert_before h q.head x,
            ground (arith, parts, node, a, zp, zn),
            record {
              queue = insert_before-IsQueue h q.head x xs v.queue f;
              sentinel = v.sentinel;
              entries = All-append (IsEntryNode t q) xs (x ∷ []) v.entries (e.at_node, tt);
            },
          ),
        )

    module _ (xs ys : List ℕ) (v : Holds t q h (xs ++ t.queue_node entry ∷ ys)) where
      linked_node : node_from_entry t q entry ≡ ok (t.queue_node entry)
      linked_node =
          node_from_entry-IsEntry t q entry e
            (All-right (λ y. y ≢ q.head) xs (t.queue_node entry ∷ ys) v.queue.distinct.0).0

      rest_entries : All (IsEntryNode t q) (xs ++ ys)
      rest_entries =
          All-append (IsEntryNode t q) xs ys
            (All-left (IsEntryNode t q) xs (t.queue_node entry ∷ ys) v.entries)
            (All-right (IsEntryNode t q) xs (t.queue_node entry ∷ ys) v.entries).1

      removed-Fresh : Fresh (t.queue_node entry) (q.head ∷ xs ++ ys)
      removed-Fresh = (
        λ k.
            (All-right (λ y. y ≢ q.head) xs (t.queue_node entry ∷ ys) v.queue.distinct.0).0 (sym k),
        Distinct-middle xs (t.queue_node entry) ys v.queue.distinct.1,
      )

      -- Removing a linked record succeeds, takes exactly its node out of the queue, and leaves the
      -- node with two null links.
      pub remove-Holds :
          (k : Links) × (remove t q entry h ≡ ok k)
          × Holds t q k (xs ++ ys)
          × (k.prev (t.queue_node entry) ≡ 0)
          × (k.next (t.queue_node entry) ≡ 0)
      unfolding remove
      remove-Holds =
          let x = t.queue_node entry in
          (
            set_next (set_prev (ngx_queue_remove h x) x 0) x 0,
            ground
                (arith, queue_parts-Holds t q h _ v, linked_node, node_links-Holds t q h xs x ys v),
            record {
              queue =
                  cleared-IsQueue (ngx_queue_remove h x) q.head x (xs ++ ys) removed-Fresh
                    (remove-IsQueue h q.head xs x ys v.queue);
              sentinel = v.sentinel;
              entries = rest_entries;
            },
            ground arith,
            ground arith,
          )

      -- Moving a linked record to the front succeeds and keeps the order of the others.
      pub move_to_front-Holds :
          (k : Links) × (move_to_front t q entry h ≡ ok k)
          × Holds t q k (t.queue_node entry ∷ xs ++ ys)
      unfolding move_to_front
      move_to_front-Holds =
          let x = t.queue_node entry in
          (
            ngx_queue_insert_after (ngx_queue_remove h x) q.head x,
            ground
                (arith, queue_parts-Holds t q h _ v, linked_node, node_links-Holds t q h xs x ys v),
            record {
              queue =
                  insert_after-IsQueue (ngx_queue_remove h x) q.head x (xs ++ ys)
                    (remove-IsQueue h q.head xs x ys v.queue) removed-Fresh;
              sentinel = v.sentinel;
              entries = (e.at_node, rest_entries);
            },
          )

      -- A record that is still linked in the queue is refused by both insertions.
      pub push-already_linked :
          (push_front t q entry h ≡ err already_linked)
          × (push_back t q entry h ≡ err already_linked)
      unfolding push_front push_back require_detached
      push-already_linked = ground (
        arith,
        queue_parts-Holds t q h _ v,
        linked_node,
        e.at_node.linked.accepted,
        detached-Fresh h (xs ++ t.queue_node entry ∷ ys) (t.queue_node entry) v,
        λ (f : Fresh (t.queue_node entry) (xs ++ t.queue_node entry ∷ ys)).
            (All-right (λ y. y ≢ t.queue_node entry) xs (t.queue_node entry ∷ ys) f).0 refl,
      )
