-- ===== src/Collections/SlabQueue/Tests.antt =====
-- A queue of two records in a small mapping: runs of the operations, and the theorems at it.
use ngx_rust.Prelude.{
  ℕ, suc, ◌+◌, ◌≤◌, ◌≡◌, refl, [], ◌∷◌, arith, ok, err, length, if◌then◌else◌, ◌==◌,
}
use ngx_rust.Core.SlabCheck.{check_typed}
use ngx_rust.Collections.NgxQueue.{Links}
use ngx_rust.Collections.SlabQueue.{
  SlabQueue, SlabQueueEntry, traversal_limit, check, check_node, push_front, push_back, remove,
  iter,
}
use ngx_rust.Collections.SlabQueue.Valid.{IsEntryNode, IsEntry, Holds}
use ngx_rust.Collections.SlabQueue.Access.{handle}
use ngx_rust.Collections.SlabQueue.Change.{push-Holds, remove-Holds}
use ngx_rust.Collections.SlabQueue.Traversal.{collect, bounded, traversal-Holds}
use ngx_rust.Collections.SlabQueue.Bounded.{traversal_bounded}

-- The node stands at the start of the record, and the payload behind it.
abbrev record_type : SlabQueueEntry
record_type = record {
  from_queue = λ node. node;
  queue_node = λ entry. entry;
  payload = λ entry. entry + 16;
  node_layout = record { size = 16; align = 8 };
  entry_layout = record { size = 32; align = 8 };
  payload_layout = record { size = 16; align = 8 };
}

abbrev shared : SlabQueue
shared = record { guard = record { mapping_start = 4096; mapping_end = 8192 }; head = 4096 }

abbrev cell : ℕ → ℕ → ℕ → ℕ → ℕ
cell a b c p = if p == 4096 then a else if p == 4160 then b else if p == 4224 then c else 0

-- The sentinel 4096 leads to 4160, then 4224; the record at 4288 is detached.
abbrev memory : Links
memory = record { next = cell 4160 4224 4096; prev = cell 4224 4096 4160 }

entry_4160 : IsEntryNode record_type shared 4160
unfolding check_node check check_typed
entry_4160 = record {
  linked = record { accepted = refl; nonzero = omega arith };
  entry = refl;
  returns = refl;
  payload = refl;
}

entry_4224 : IsEntryNode record_type shared 4224
unfolding check_node check check_typed
entry_4224 = record {
  linked = record { accepted = refl; nonzero = omega arith };
  entry = refl;
  returns = refl;
  payload = refl;
}

detached : IsEntry record_type shared 4288
unfolding check_node check check_typed
detached = record {
  at_node = record {
    linked = record { accepted = refl; nonzero = omega arith };
    entry = refl;
    returns = refl;
    payload = refl;
  };
  round_trip = refl;
}

second : IsEntry record_type shared 4224
second = record { at_node = entry_4224; round_trip = refl }

memory-Holds : Holds record_type shared memory (4160 ∷ 4224 ∷ [])
unfolding check_node check check_typed
memory-Holds = record {
  queue = record { linked = ground arith; distinct = omega arith };
  sentinel = record { accepted = refl; nonzero = omega arith };
  entries = (entry_4160, (entry_4224, tt));
}

push-Holds_example :
    ((k : Links) × (push_front record_type shared 4288 memory ≡ ok k)
      × Holds record_type shared k (4288 ∷ 4160 ∷ 4224 ∷ []))
    × ((k : Links) × (push_back record_type shared 4288 memory ≡ ok k)
        × Holds record_type shared k (4160 ∷ 4224 ∷ 4288 ∷ []))
push-Holds_example =
    push-Holds record_type shared memory 4288 detached (4160 ∷ 4224 ∷ []) memory-Holds refl refl

remove-Holds_example :
    (k : Links) × (remove record_type shared 4224 memory ≡ ok k)
    × Holds record_type shared k (4160 ∷ [])
    × (k.prev 4224 ≡ 0)
    × (k.next 4224 ≡ 0)
remove-Holds_example =
    remove-Holds record_type shared memory 4224 second (4160 ∷ []) [] memory-Holds

traversal-Holds_example :
    collect record_type shared memory 9 (iter shared 1)
    ≡ ok (handle record_type 4160) ∷ err traversal_limit ∷ []
unfolding bounded
traversal-Holds_example =
    traversal-Holds record_type shared memory (4160 ∷ 4224 ∷ []) 1 9 (omega arith) memory-Holds

-- A link from the first record back to itself.
abbrev corrupt : Links
corrupt = record memory { next = cell 4160 4160 4096 }

traversal_bounded_example :
    (length (collect record_type shared corrupt 50 (iter shared 3)) ≤ 4)
    × (collect record_type shared corrupt (suc (3 + suc 50)) (iter shared 3)
        ≡ collect record_type shared corrupt 5 (iter shared 3))
traversal_bounded_example = traversal_bounded record_type shared corrupt 3 50
