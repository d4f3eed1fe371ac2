-- ===== src/Core/Buffer.antt =====
-- src/core/buffer.rs: the checked view of an `ngx_buf_t`, and the buffers that a pool builds. Bytes
-- stand in a memory, a total map from addresses. A failed assertion is an outcome of its own.
mod Tests
pub mod Consume
pub mod Kind
pub mod Slice
pub mod Bytes
pub mod Ranges
pub mod FileSlice
use ngx_rust.Prelude.{
  ℕ, zero, suc, ◌+◌, ◌-◌, ◌%◌, ◌^◌, Bool, true, false, ◌&&◌, ◌||◌, not, Option, none, some, List,
  [], ◌∷◌, length, take, drop, ltb, leb, ◌==◌, if◌then◌else◌, Result, ok, err, ◌>>=◌, ◌>>◌, fail_if,
  ok_or, put,
}
use ngx_rust.Prelude.Int.{ℤ, pos, negsuc, is_negative, lt_ℤ, add_ℕ, sub_ℤ}

pub data BufferError : Type 0 where
  null_buffer misaligned_buffer invalid_memory_range invalid_file_range : BufferError
  not_memory not_file out_of_range overflow foreign_pool allocation file_descriptor : BufferError

pub data Failure : Type 0 where
  fails : BufferError → Failure
  panics : Failure

pub record BufferFlags : Type 0 where
  pub flush : Bool
  pub sync : Bool
  pub last_buf : Bool
  pub last_in_chain : Bool

-- `ngx_buf_t`: the addresses, the file and its offsets, and the bits that the source reads.
pub record Buf : Type 0 where
  pub start : ℕ
  pub pos_at : ℕ
  pub last : ℕ
  pub end : ℕ
  pub file : ℕ
  pub file_pos : ℤ
  pub file_last : ℤ
  pub temporary : Bool
  pub memory : Bool
  pub mmap : Bool
  pub in_file : Bool
  pub flags : BufferFlags

pub record FileView : Type 0 where
  pub file : ℕ
  pub start : ℤ
  pub end : ℤ
  pub len : ℕ

pub data BufferView : Type 0 where
  bytes : List ℕ → BufferView
  in_file : FileView → BufferView
  control : BufferFlags → BufferView

-- `isize::MAX`, `usize::MAX`, the greatest `off_t`, and the alignment of `ngx_file_t`.
pub record Platform : Type 0 where
  pub isize_max : ℕ
  pub usize_max : ℕ
  pub off_max : ℕ
  pub file_align : ℕ

abbrev pub Memory : Type 0
Memory = ℕ → ℕ

abbrev pub read_bytes : Memory → ℕ → ℕ → List ℕ
read_bytes m at zero = []
read_bytes m at (suc n) = m at ∷ read_bytes m (at + 1) n

-- `ptr::copy_nonoverlapping`.
abbrev pub write_bytes : ℕ → List ℕ → Memory → Memory
write_bytes at [] m = m
write_bytes at (b ∷ bs) m = write_bytes (at + 1) bs (put at b m)

unfoldable pub in_memory : Buf → Bool
in_memory b = b.temporary || b.memory || b.mmap

-- The assertion `last >= pos` of `len`.
unfoldable pub len : Buf → Result Failure ℕ
len b = do fail_if (ltb b.last b.pos_at) panics; ok (b.last - b.pos_at)

unfoldable pub as_bytes : Memory → Buf → Result Failure (List ℕ)
as_bytes m b = do n ← len b; ok (read_bytes m b.pos_at n)

-- `end.offset_from(last) as usize`, which wraps for a buffer that ends before it.
unfoldable pub capacity : Buf → ℕ
capacity b = (b.end + 2 ^ 64 - b.last) % 2 ^ 64

unfoldable pub append : List ℕ → Memory → Buf → ℕ × Memory × Buf
append bs m b =
    let n = if ltb (length bs) (capacity b) then length bs else capacity b in
    (n, write_bytes b.last (take n bs) m, record b { last = b.last + n })

unfoldable pub set_flags : BufferFlags → Buf → Buf
set_flags f b = record b { flags = f }

abbrev pub nonempty : Option FileView → Option FileView
nonempty none = none
nonempty (some f) = if f.len == 0 then none else some f

abbrev pub file_len : Option FileView → ℕ
file_len none = 0
file_len (some f) = f.len

abbrev pub file_view : Option FileView → Buf → BufferView
file_view none b = control b.flags
file_view (some f) b = in_file f

abbrev pub Outcome : Type 0
Outcome = Option Failure × Buf

abbrev pub attempt : {A : Type 0} → Result Failure A → Buf → (A → Outcome) → Outcome
attempt (ok a) b f = f a
attempt (err e) b f = (some e, b)

abbrev pub advance_memory : ℕ → Buf → Buf
advance_memory n b = if in_memory b then record b { pos_at = b.pos_at + n } else b

abbrev pub exceeds : ℕ → Option FileView → Bool
exceeds n none = false
exceeds n (some f) = ltb f.len n

module _ (p : Platform) where
  unfoldable pub file_range : Buf → Result Failure (Option FileView)
  file_range b = if not b.in_file then ok none else (do
    fail_if (b.file == 0) (fails invalid_file_range)
    fail_if
        (not (b.file % p.file_align == 0) || is_negative b.file_pos || lt_ℤ b.file_last b.file_pos)
        (fails invalid_file_range)
    fail_if (ltb p.usize_max (sub_ℤ b.file_last b.file_pos)) (fails overflow)
    ok (
        some (record {
          file = b.file;
          start = b.file_pos;
          end = b.file_last;
          len = sub_ℤ b.file_last b.file_pos;
        })))

  unfoldable pub check_memory : Buf → Result Failure (Unit {0})
  check_memory b = do
    fail_if (b.pos_at == 0) (fails invalid_memory_range)
    fail_if (b.last == 0) (fails invalid_memory_range)
    fail_if (ltb b.last b.pos_at) (fails invalid_memory_range)
    fail_if (ltb p.isize_max (b.last - b.pos_at)) (fails invalid_memory_range)
    fail_if (b.temporary && not (b.end == 0) && ltb b.end b.last) (fails invalid_memory_range)

  unfoldable pub validate_native_buffer : Buf → Result Failure (Unit {0})
  validate_native_buffer b = do
    (if in_memory b then check_memory b else ok tt)
    f ← file_range b
    ok tt

  -- `Buffer::file`: a nonempty range.
  unfoldable pub file_of : Buf → Result Failure (Option FileView)
  file_of b = do f ← file_range b; ok (nonempty f)

  unfoldable pub size : Buf → Result Failure ℕ
  size b = do
    validate_native_buffer b
    (if in_memory b then len b else (do f ← file_of b; ok (file_len f)))

  unfoldable pub kind : Memory → Buf → Result Failure BufferView
  kind m b = do
    validate_native_buffer b
    (if in_memory b
        then (do n ← len b; bs ← as_bytes m b; ok (if n == 0 then control b.flags else bytes bs))
        else (do f ← file_of b; ok (file_view f b)))

  -- `checked_add` on `off_t`.
  abbrev pub checked_add : ℤ → ℕ → Result Failure ℤ
  checked_add a n = do fail_if (lt_ℤ (pos p.off_max) (add_ℕ a n)) (fails overflow); ok (add_ℕ a n)

  -- `off_t::try_from`.
  abbrev pub to_off : ℕ → Result Failure ℕ
  to_off n = do fail_if (ltb p.off_max n) (fails overflow); ok n

  -- The file position is advanced after the memory position.
  abbrev pub advance_file : ℕ → Option FileView → Buf → Outcome
  advance_file n none b = (none, b)
  advance_file n (some f) b =
      attempt (checked_add b.file_pos n) b (λ at. (none, record b { file_pos = at }))

  abbrev pub file_amount : ℕ → Option FileView → Result Failure ℕ
  file_amount n none = ok 0
  file_amount n (some f) = to_off n

  unfoldable pub consume : ℕ → Buf → Outcome
  consume amount b = attempt (size b) b (λ visible. attempt (file_of b) b (λ file.
      if ltb visible amount || exceeds amount file
      then (some (fails out_of_range), b)
      else attempt (file_amount amount file) b
          (λ n. advance_file n file (advance_memory amount b))))
