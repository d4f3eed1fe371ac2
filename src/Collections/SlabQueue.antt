-- ===== src/Collections/SlabQueue.antt =====
-- src/collections/slab_queue.rs: guard-scoped intrusive queues in shared slab memory. The guard's
-- checks are those of src/core/slab.rs, and the links are rewritten by the functions of
-- nginx-sys/src/core/queue.rs. The `SlabQueueEntry` implementation of the record type is a
-- parameter: its three conversions and the layouts that the guard checks. The queue's own fields
-- are the guard and the sentinel `head`; the shared memory is passed and returned.
pub mod Valid
pub mod Access
pub mod Change
pub mod Traversal
pub mod Bounded
mod Tests
use ngx_rust.Prelude.{
  ℕ, ◌+◌, Bool, true, false, ◌||◌, not, Option, none, some, ◌==◌, if◌then◌else◌, Result, ok, err,
  ◌>>=◌, ◌>>◌, fail_if, map_err,
}
use ngx_rust.Core.SlabCheck.{SlabError, SlabGuard, Layout, check_typed}
use ngx_rust.Collections.NgxQueue.{
  Links, set_next, set_prev, ngx_queue_init, ngx_queue_insert_after, ngx_queue_insert_before,
  ngx_queue_remove,
}

pub data SlabQueueError : Type 0 where
  slab : SlabError → SlabQueueError
  null_next null_prev head_node already_linked broken_link : SlabQueueError
  entry_node_mismatch traversal_limit cycle : SlabQueueError

-- `impl SlabQueueEntry for T`, with the layouts of `ngx_queue_t`, `T` and `T::Payload`.
pub record SlabQueueEntry : Type 0 where
  pub from_queue : ℕ → ℕ
  pub queue_node : ℕ → ℕ
  pub payload : ℕ → ℕ
  pub node_layout : Layout
  pub entry_layout : Layout
  pub payload_layout : Layout

pub record SlabQueue : Type 0 where
  pub guard : SlabGuard
  pub head : ℕ

pub record QueueParts : Type 0 where
  pub next : ℕ
  pub prev : ℕ

-- The handles `SlabQueueEntryRef` and `SlabQueueEntryMut`: a record and its payload.
pub record EntryHandle : Type 0 where
  pub entry : ℕ
  pub payload : ℕ

-- `NonNull::new(ptr).ok_or(error)`.
abbrev pub non_null : ℕ → SlabQueueError → Result SlabQueueError ℕ
non_null ptr e = if ptr == 0 then err e else ok ptr

module _ (t : SlabQueueEntry) where
  -- `guard.check_typed(ptr)?` at one of the three types.
  unfoldable pub check : SlabQueue → Layout → ℕ → Result SlabQueueError (Unit {0})
  check q layout ptr = map_err slab (check_typed q.guard layout ptr)

  unfoldable pub check_node : SlabQueue → ℕ → Result SlabQueueError (Unit {0})
  check_node q node = check q t.node_layout node

  unfoldable pub queue_parts : SlabQueue → Links → Result SlabQueueError QueueParts
  queue_parts q h = do
    check_node q q.head
    next ← non_null (h.next q.head) null_next
    prev ← non_null (h.prev q.head) null_prev
    check_node q next
    check_node q prev
    fail_if (if next == q.head then not (prev == q.head) else not (h.prev next == q.head))
        broken_link
    fail_if (if prev == q.head then not (next == q.head) else not (h.next prev == q.head))
        broken_link
    ok (record { next = next; prev = prev })

  -- The `next` of `QueueNodeLinks`.
  unfoldable pub node_links : SlabQueue → Links → ℕ → Result SlabQueueError ℕ
  node_links q h node = do
    fail_if (node == q.head) head_node
    check_node q node
    prev ← non_null (h.prev node) null_prev
    next ← non_null (h.next node) null_next
    fail_if (prev == node || next == node) cycle
    check_node q prev
    check_node q next
    fail_if (not (h.next prev == node) || not (h.prev next == node)) broken_link
    fail_if (if prev == next then not (prev == q.head) else false) cycle
    ok next

  unfoldable pub require_detached : SlabQueue → Links → ℕ → Result SlabQueueError (Unit {0})
  require_detached q h node = do
    check_node q node
    fail_if (not (h.prev node == 0) || not (h.next node == 0)) already_linked

  unfoldable pub entry_parts_from_node : SlabQueue → ℕ → Result SlabQueueError EntryHandle
  entry_parts_from_node q node = do
    check_node q node
    let entry = t.from_queue node
    check q t.entry_layout entry
    let entry_node = t.queue_node entry
    check_node q entry_node
    fail_if (not (entry_node == node)) entry_node_mismatch
    let payload = t.payload entry
    check q t.payload_layout payload
    ok (record { entry = entry; payload = payload })

  unfoldable pub node_from_entry : SlabQueue → ℕ → Result SlabQueueError ℕ
  node_from_entry q entry = do
    check q t.entry_layout entry
    let node = t.queue_node entry
    check_node q node
    fail_if (node == q.head) head_node
    parts ← entry_parts_from_node q node
    fail_if (not (parts.entry == entry)) entry_node_mismatch
    ok node

  -- `SlabQueue::init`.
  unfoldable pub init : SlabGuard → ℕ → Links → Result SlabQueueError (SlabQueue × Links)
  init guard head h = do
    check_node (record { guard = guard; head = head }) head
    ok (record { guard = guard; head = head }, ngx_queue_init h head)

  -- `SlabQueue::from_raw`.
  unfoldable pub from_raw : SlabGuard → ℕ → Links → Result SlabQueueError SlabQueue
  from_raw guard head h = do
    let q : SlabQueue = record { guard = guard; head = head }
    check_node q head
    parts ← queue_parts q h
    ok q

  unfoldable pub is_empty : SlabQueue → Links → Result SlabQueueError Bool
  is_empty q h = do
    parts ← queue_parts q h
    (if parts.next == q.head then ok true else (node_links q h parts.next >>= λ links. ok false))

  -- One end of the queue: what `front` and `back` share.
  unfoldable pub end_entry : SlabQueue → Links → ℕ → Result SlabQueueError (Option EntryHandle)
  end_entry q h node =
      if node == q.head
      then ok none
      else (node_links q h node >>= λ links.
          entry_parts_from_node q node >>= λ parts. ok (some parts))

  -- `front` and `front_mut`, which differ in the handle's type only.
  unfoldable pub front : SlabQueue → Links → Result SlabQueueError (Option EntryHandle)
  front q h = do parts ← queue_parts q h; end_entry q h parts.next

  -- `back` and `back_mut`.
  unfoldable pub back : SlabQueue → Links → Result SlabQueueError (Option EntryHandle)
  back q h = do parts ← queue_parts q h; end_entry q h parts.prev

  unfoldable pub push_front : SlabQueue → ℕ → Links → Result SlabQueueError Links
  push_front q entry h = do
    parts ← queue_parts q h
    node ← node_from_entry q entry
    require_detached q h node
    ok (ngx_queue_insert_after h q.head node)

  unfoldable pub push_back : SlabQueue → ℕ → Links → Result SlabQueueError Links
  push_back q entry h = do
    parts ← queue_parts q h
    node ← node_from_entry q entry
    require_detached q h node
    ok (ngx_queue_insert_before h q.head node)

  unfoldable pub remove : SlabQueue → ℕ → Links → Result SlabQueueError Links
  remove q entry h = do
    parts ← queue_parts q h
    node ← node_from_entry q entry
    links ← node_links q h node
    ok (set_next (set_prev (ngx_queue_remove h node) node 0) node 0)

  unfoldable pub move_to_front : SlabQueue → ℕ → Links → Result SlabQueueError Links
  move_to_front q entry h = do
    parts ← queue_parts q h
    node ← node_from_entry q entry
    links ← node_links q h node
    ok (ngx_queue_insert_after (ngx_queue_remove h node) q.head node)

-- `SlabQueueIter`, less its borrow of the queue.
pub record SlabQueueIter : Type 0 where
  pub current : ℕ
  pub yielded : ℕ
  pub max_entries : ℕ
  pub done : Bool

unfoldable pub iter : SlabQueue → ℕ → SlabQueueIter
iter q max_entries = record {
  current = q.head;
  yielded = 0;
  max_entries = max_entries;
  done = false;
}

unfoldable pub advance :
    SlabQueueIter
    → Result SlabQueueError (Option (EntryHandle × SlabQueueIter))
    → Option (Result SlabQueueError EntryHandle) × SlabQueueIter
advance it (ok (some (entry, it'))) = (some (ok entry), it')
advance it (ok none) = (none, record it { done = true })
advance it (err e) = (some (err e), record it { done = true })

module _ (t : SlabQueueEntry) where
  -- The node that `next_entry` goes to, or none at the end of the queue.
  unfoldable pub next_node : SlabQueue → Links → SlabQueueIter → Result SlabQueueError ℕ
  next_node q h it = do
    parts ← queue_parts t q h
    if it.current == q.head then ok parts.next else node_links t q h it.current

  -- The iterator is returned with the entry, since only that outcome advances it.
  unfoldable pub next_entry :
      SlabQueue
      → Links
      → SlabQueueIter
      → Result SlabQueueError (Option (EntryHandle × SlabQueueIter))
  next_entry q h it = do
    next ← next_node q h it
    (if next == q.head
        then ok none
        else (if it.yielded == it.max_entries
            then err traversal_limit
            else (node_links t q h next >>= λ links. entry_parts_from_node t q next >>= λ entry.
                ok (some (entry, record it { current = next; yielded = it.yielded + 1 })))))

  -- `Iterator::next`.
  unfoldable pub next :
      SlabQueue → Links → SlabQueueIter → Option (Result SlabQueueError EntryHandle) × SlabQueueIter
  unfolding advance
  next q h it = if it.done then (none, it) else advance it (next_entry q h it)
