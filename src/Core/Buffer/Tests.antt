-- ===== src/Core/Buffer/Tests.antt =====
-- src/core/buffer.rs: a buffer of four bytes at 100 that is backed by a range of a file, a buffer of
-- the file alone, and a pool whose buffers start at 500.
use ngx_rust.Prelude.{
  ℕ, ◌+◌, ◌≤◌, ◌≡◌, refl, Bool, true, false, Option, none, some, [], ◌∷◌, ok, arith, ap, subst, leb,
  if◌then◌else◌,
}
use ngx_rust.Prelude.Int.{pos}
use ngx_rust.Core.Buffer.{
  Buf, BufferFlags, FileView, Platform, Memory, write_bytes, in_memory, len, as_bytes, file_range,
  check_memory, validate_native_buffer, size, append, set_flags, capacity,
}
use ngx_rust.Core.Buffer.Slice.{Pool, zeroed, copied, copy_buffer, buffer_slice}
use ngx_rust.Core.Buffer.Bytes.{CreatesBuffers, IsFresh}
use ngx_rust.Core.Buffer.Ranges.{buffer_slice-as_bytes}

abbrev platform : Platform
platform = record { isize_max = 9000; usize_max = 9000; off_max = 9000; file_align = 8 }

abbrev memory : Memory
memory = λ at. at + 7

abbrev flags : BufferFlags
flags = record { flush = false; sync = false; last_buf = true; last_in_chain = false }

abbrev both : Buf
both = record zeroed {
  start = 100;
  pos_at = 100;
  last = 104;
  end = 110;
  file = 64;
  file_pos = pos 20;
  file_last = pos 24;
  memory = true;
  in_file = true;
}

abbrev view : FileView
view = record { file = 64; start = pos 20; end = pos 24; len = 4 }

abbrev stored : Buf
stored = record zeroed { file = 64; file_pos = pos 20; file_last = pos 24; in_file = true }

abbrev temp_buffer : ℕ → Buf
temp_buffer n = record zeroed {
  start = 500;
  pos_at = 500;
  last = 500;
  end = 500 + n;
  temporary = true;
}

abbrev pool : Pool
pool = record {
  create_buffer = λ n. if leb n 1000 then some (temp_buffer n) else none;
  can_calloc = true;
}

some_injective : {A : Type 0} {x y : A} → ◌≡◌ {A = Option A} (some x) (some y) → x ≡ y
some_injective {A} {x} e = ap (λ (o : Option A). elim o [ none ↦ x | some z ↦ z ]) e

pool-CreatesBuffers : CreatesBuffers pool
pool-CreatesBuffers n b h = by_size (leb n 1000) refl h
  where
    by_size :
        (t : Bool)
        → leb n 1000 ≡ t
        → (if t then some (temp_buffer n) else none) ≡ some b
        → IsFresh n b
    by_size true e k =
        subst (IsFresh n) (some_injective k)
          (record { at_start = refl; is_empty = refl; holds = refl; addressed = ground arith })
    by_size false e k = absurd (cc)

abbrev sliced : Memory × Buf
sliced =
    (write_bytes 500 (108 ∷ 109 ∷ []) memory, record (temp_buffer 2) { last = 502; flags = flags })

buffer_slice-as_bytes_example :
    (1 ≤ 3)
    × (3 ≤ 4)
    × (as_bytes memory both ≡ ok (107 ∷ 108 ∷ 109 ∷ 110 ∷ []))
    × (as_bytes sliced.0 sliced.1 ≡ ok (108 ∷ 109 ∷ []))
    × (sliced.1.flags ≡ flags)
unfolding size in_memory validate_native_buffer check_memory file_range len buffer_slice as_bytes
    copy_buffer copied append set_flags capacity
buffer_slice-as_bytes_example =
    buffer_slice-as_bytes platform pool both 1 3 4 flags memory sliced.0 sliced.1
      pool-CreatesBuffers refl refl refl
