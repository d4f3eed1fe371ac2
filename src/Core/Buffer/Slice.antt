-- ===== src/Core/Buffer/Slice.antt =====
-- src/core/buffer.rs: the buffers that a pool builds. The pool's allocations answer with a buffer or
-- with none: `create_buffer` is nginx's, and a zeroed descriptor comes from `ngx_pcalloc`.
use ngx_rust.Prelude.{
  ℕ, ◌+◌, ◌-◌, Bool, true, false, ◌&&◌, ◌||◌, not, Option, List, length, take, drop, ltb, ◌==◌,
  if◌then◌else◌, Result, ok, ◌>>=◌, ◌>>◌, fail_if, ok_or,
}
use ngx_rust.Prelude.Int.{pos}
use ngx_rust.Core.Buffer.{
  Buf, BufferFlags, FileView, Platform, Failure, fails, panics, allocation, out_of_range, not_file,
  invalid_memory_range, Memory, in_memory, as_bytes, size, file_of, set_flags, append, to_off,
  checked_add,
}

pub record Pool : Type 0 where
  pub create_buffer : ℕ → Option Buf
  pub can_calloc : Bool

abbrev pub zeroed : Buf
zeroed = record {
  start = 0;
  pos_at = 0;
  last = 0;
  end = 0;
  file = 0;
  file_pos = pos 0;
  file_last = pos 0;
  temporary = false;
  memory = false;
  mmap = false;
  in_file = false;
  flags = record { flush = false; sync = false; last_buf = false; last_in_chain = false };
}

-- `NonNull::dangling` of a byte is the address 1.
unfoldable pub empty_buffer : Pool → Result Failure Buf
empty_buffer pool = do
  fail_if (not pool.can_calloc) (fails allocation)
  ok (record zeroed { pos_at = 1; last = 1 })

unfoldable pub control_buffer : Pool → BufferFlags → Result Failure Buf
control_buffer pool flags = do b ← empty_buffer pool; ok (set_flags flags b)

unfoldable pub reference_memory : Pool → ℕ → ℕ → BufferFlags → Result Failure Buf
reference_memory pool at n flags = do
  fail_if (at == 0 || (n == 0)) (fails invalid_memory_range)
  b ← empty_buffer pool
  ok (
      set_flags flags
        (record b { start = at; pos_at = at; last = at + n; end = at + n; memory = true }))

-- The copy into a buffer that was created.
unfoldable pub copied : List ℕ → Memory → Buf → Result Failure (Memory × Buf)
copied bs m b = do
  let appended = append bs m b
  fail_if (not (appended.0 == length bs)) (fails out_of_range)
  ok (appended.1, appended.2)

-- The buffer is returned with the memory that it was copied into.
unfoldable pub copy_buffer : Pool → List ℕ → BufferFlags → Memory → Result Failure (Memory × Buf)
copy_buffer pool bs flags m = do
  b ← ok_or (pool.create_buffer (length bs)) (fails allocation)
  copied bs m (set_flags flags b)

unfoldable pub static_buffer : Pool → ℕ → List ℕ → BufferFlags → Result Failure Buf
static_buffer pool at bs flags =
    if length bs == 0 then control_buffer pool flags else reference_memory pool at (length bs) flags

-- `&bytes[range]`.
abbrev pub range_of : List ℕ → ℕ → ℕ → Result Failure (List ℕ)
range_of bs start end = do
  fail_if (ltb end start || ltb (length bs) end) panics
  ok (take (end - start) (drop start bs))

module _ (p : Platform) where
  unfoldable pub build_file_buffer : Pool → FileView → ℕ → ℕ → BufferFlags → Result Failure Buf
  build_file_buffer pool f start end flags = do
    fail_if (ltb end start || ltb f.len end) (fails out_of_range)
    (if start == end then control_buffer pool flags else (do
      from ← to_off p start
      to ← to_off p end
      file_start ← checked_add p f.start from
      file_end ← checked_add p f.start to
      b ← empty_buffer pool
      ok (
          set_flags flags (record b {
            file = f.file;
            file_pos = file_start;
            file_last = file_end;
            in_file = true;
          }))))

  unfoldable pub file_buffer_slice : Pool → Buf → ℕ → ℕ → BufferFlags → Result Failure Buf
  file_buffer_slice pool b start end flags = do
    file ← file_of p b
    f ← ok_or file (fails not_file)
    build_file_buffer pool f start end flags

  -- The whole of a memory buffer is referenced, a part of it is copied.
  unfoldable pub buffer_slice :
      Pool → Buf → ℕ → ℕ → BufferFlags → Memory → Result Failure (Memory × Buf)
  buffer_slice pool b start end flags m = do
    n ← size p b
    fail_if (ltb end start || ltb n end) (fails out_of_range)
    (if start == end
        then (do r ← control_buffer pool flags; ok (m, r))
        else (if not (in_memory b)
            then (do r ← file_buffer_slice pool b start end flags; ok (m, r))
            else (do
              bs ← as_bytes m b
              (if (start == 0) && (end == n)
                  then (do r ← reference_memory pool b.pos_at (length bs) flags; ok (m, r))
                  else (do part ← range_of bs start end; copy_buffer pool part flags m)))))
