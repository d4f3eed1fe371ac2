-- ===== src/Core/SlabCheck.antt =====
-- src/core/slab.rs: the range and alignment checks that a `SlabGuard` makes of every pointer into
-- the shared mapping. An address is a number, and `usize` has 64 bits.
use ngx_rust.Prelude.{
  ℕ, ◌+◌, ◌%◌, ◌^◌, ◌≤◌, ◌≡◌, ◌||◌, not, arith, ltb, leb, ◌==◌, if◌then◌else◌, Result, ok, err,
}

pub data SlabError : Type 0 where
  null_mapping misaligned_mapping mapping_too_small overflow out_of_range : SlabError
  misaligned_pointer unsupported_alignment allocation : SlabError

-- The fields of `SlabPool` that the checks read.
pub record SlabGuard : Type 0 where
  pub mapping_start : ℕ
  pub mapping_end : ℕ

-- `mem::size_of::<T>()` and `mem::align_of::<T>()`.
pub record Layout : Type 0 where
  pub size : ℕ
  pub align : ℕ

unfoldable pub checked_bytes : SlabGuard → ℕ → ℕ → Result SlabError (Unit {0})
checked_bytes g start len =
    if ltb start g.mapping_start || ltb g.mapping_end start
    then err out_of_range
    else (if leb (2 ^ 64) (start + len)
        then err overflow
        else (if ltb g.mapping_end (start + len) then err out_of_range else ok tt))

unfoldable pub check_typed : SlabGuard → Layout → ℕ → Result SlabError (Unit {0})
unfolding checked_bytes
check_typed g layout ptr =
    if not (ptr % layout.align == 0)
    then err misaligned_pointer
    else checked_bytes g ptr layout.size

-- What an accepted pointer satisfies.
pub check_typed-in_range :
    (g : SlabGuard) (layout : Layout) (ptr : ℕ)
    → check_typed g layout ptr ≡ ok tt
    → (g.mapping_start ≤ ptr) × (ptr + layout.size ≤ g.mapping_end) × (ptr % layout.align ≡ 0)
unfolding check_typed
check_typed-in_range g layout ptr h = ground arith
