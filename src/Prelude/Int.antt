-- ===== src/Prelude/Int.antt =====
-- Signed integers over the native numbers, and what file offsets need of them.
use Prim.Native.Nat.{ℕ, suc, ◌+◌, ◌-◌}
use mathlib.Core.Bool.{Bool, true, false}
use ngx_rust.Prelude.Tests.{ltb, leb, if◌then◌else◌}

-- `negsuc n` is -(n + 1).
pub data ℤ : Type 0 where
  pos : ℕ → ℤ
  negsuc : ℕ → ℤ

abbrev pub is_negative : ℤ → Bool
is_negative (pos n) = false
is_negative (negsuc n) = true

-- `a < b`.
abbrev pub lt_ℤ : ℤ → ℤ → Bool
lt_ℤ (pos a) (pos b) = ltb a b
lt_ℤ (pos a) (negsuc b) = false
lt_ℤ (negsuc a) (pos b) = true
lt_ℤ (negsuc a) (negsuc b) = ltb b a

-- `a + n`.
abbrev pub add_ℕ : ℤ → ℕ → ℤ
add_ℕ (pos a) n = pos (a + n)
add_ℕ (negsuc a) n = if leb n a then negsuc (a - n) else pos (n - suc a)

-- `b - a` where it is not negative, as a number.
abbrev pub sub_ℤ : ℤ → ℤ → ℕ
sub_ℤ (pos b) (pos a) = b - a
sub_ℤ (pos b) (negsuc a) = b + suc a
sub_ℤ (negsuc b) (pos a) = 0
sub_ℤ (negsuc b) (negsuc a) = a - b
