-- ===== src/Prelude/Maps.antt =====
-- Total maps from numbers, written at one place.
use Prim.Native.Nat.{ℕ}
use mathlib.Core.Path.{◌≡◌, sym, subst}
use mathlib.Core.Logic.{◌≢◌}
use native.Mathlib.Omega.{arith}
use native.Mathlib.Decide.{ℕ_discrete}
use ngx_rust.Prelude.Tests.{◌==◌, if◌then◌else◌}

module _ {ℓ} {A : Type ℓ} where
  unfoldable pub put : ℕ → A → (ℕ → A) → ℕ → A
  put i a f j = if j == i then a else f j

  pub put-same : (i : ℕ) (a : A) (f : ℕ → A) → put i a f i ≡ a
  unfolding put
  put-same i a f = ground arith

  pub put-other : (i : ℕ) (a : A) (f : ℕ → A) (j : ℕ) → j ≢ i → put i a f j ≡ f j
  unfolding put
  put-other i a f j h = ground arith

  -- What holds of the new value and of the old ones holds of the values after a write.
  pub put-elim {κ} :
      (P : A → Type κ) (i : ℕ) (a : A) (f : ℕ → A)
      → P a
      → ((j : ℕ) → P (f j))
      → (j : ℕ) → P (put i a f j)
  put-elim P i a f new old j = elim (ℕ_discrete j i) [
    | yes e ↦ subst (λ x. P (put i a f x)) (sym e) (subst P (sym (put-same i a f)) new)
    | no n ↦ subst P (sym (put-other i a f j n)) (old j)
  ]
