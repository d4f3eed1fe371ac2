-- ===== src/Core/Chain/Output.antt =====
-- src/core/chain.rs: the chain that `append_for_output_filter` hands on.
use ngx_rust.Prelude.{
  ℕ, zero, suc, ◌%◌, ◌≡◌, ◌<◌, refl, sym, ap, ◌∙◌, subst, true, some, List, [], ◌∷◌, ◌++◌, length,
  ◌==◌, if◌then◌else◌, ok, arith, put-same,
}
use ngx_rust.Core.Chain.{
  Alignment, Link, Links, set_next, check_chain_ptr, tail, given, joined, if_found,
  append_for_output_filter,
}
use ngx_rust.Core.Chain.Paths.{Linked, Linked-frame, Linked-append, Avoids}
use ngx_rust.Core.Chain.Append.{set_next-buf}

module _ (a : Alignment) where
  abbrev pub Aligned : List ℕ → Type 0
  Aligned [] = Unit
  Aligned (l ∷ ls) = ((l % a.link_align == 0) ≡ true) × Aligned ls

  -- The last link of a chain is found with as much fuel as it has links.
  tail-last :
      (fuel : ℕ) (h : Links) (at last : ℕ) (front : List ℕ)
      → length front < fuel
      → Linked h at (front ++ (last ∷ [])) 0
      → Aligned (front ++ (last ∷ []))
      → tail a fuel h at ≡ some (ok (some last))
  unfolding tail
  tail-last zero h at last front l k al = absurd (omega arith)
  tail-last (suc fuel) h at last [] l k al =
      subst (λ x. tail a (suc fuel) h x ≡ some (ok (some last))) (sym k.0)
        (ground (arith, k.1, k.2, al.0))
  tail-last (suc fuel) h at last (x ∷ []) l k al =
      ground (arith, tail-last fuel h (h x).next last [] (omega arith) k.2 al.1)
  tail-last (suc fuel) h at last (x ∷ y ∷ front) l k al =
      ground (arith, tail-last fuel h (h x).next last (y ∷ front) (omega arith) k.2 al.1)

  given-ok :
      (h : Links) (at : ℕ) (l : ℕ) (ls : List ℕ) (z : ℕ)
      → Linked h at (l ∷ ls) z
      → Aligned (l ∷ ls)
      → given a h at ≡ ok (h, at)
  unfolding check_chain_ptr
  given-ok h at l ls z k al = ground (arith, k.0, al.0)

  head-given :
      (h g : Links) (at last : ℕ) (front : List ℕ)
      → Linked h at (front ++ (last ∷ [])) 0
      → Aligned (front ++ (last ∷ []))
      → given a g at ≡ ok (g, at)
  unfolding check_chain_ptr
  head-given h g at last [] k al = ground (arith, k.0, al.0)
  head-given h g at last (x ∷ front) k al = ground (arith, k.0, al.0)

Linked-split :
    (h : Links) (at z : ℕ) (xs ys : List ℕ)
    → Linked h at (xs ++ ys) z
    → (m : ℕ) × Linked h at xs m × Linked h m ys z
Linked-split h at z [] ys k = (at, refl, k)
Linked-split h at z (x ∷ xs) ys k =
    let (m, l, r) = Linked-split h (h x).next z xs ys k.2 in (m, (k.0, k.1, l), r)

-- The suffix follows the last link.
joined-Linked :
    (h : Links) (head suffix last : ℕ) (front ys : List ℕ)
    → Linked h head (front ++ (last ∷ [])) 0
    → Linked h suffix ys 0
    → Avoids last front
    → Avoids last ys
    → Linked (set_next last suffix h) head (front ++ (last ∷ ys)) 0
joined-Linked h head suffix last front ys k l away apart =
    let (m, path, at) = Linked-split h head 0 front (last ∷ []) k in
    let new : Link = record { buf = (h last).buf; next = suffix } in
    Linked-append (set_next last suffix h) head m 0 front (last ∷ ys)
      (Linked-frame h head m last new front away path)
      (
        at.0,
        at.1,
        subst (λ b. Linked (set_next last suffix h) b ys 0)
            (sym (ap (λ (x : Link). x.next) (put-same last new h)))
            (Linked-frame h suffix 0 last new ys apart l),
      )

module _ (a : Alignment) where
  -- What an output filter is given: the links of both chains in order, with the buffers that they had.
  -- As much fuel as the first chain has links is enough to find its end.
  pub append_for_output_filter-Linked :
      (fuel : ℕ) (h : Links) (head suffix last : ℕ) (front ys : List ℕ)
      → length front < fuel
      → Linked h head (front ++ (last ∷ [])) 0
      → Aligned a (front ++ (last ∷ []))
      → Linked h suffix ys 0
      → Avoids last front
      → Avoids last ys
      → (h' : Links) × (append_for_output_filter a fuel h head suffix ≡ some (ok (h', head)))
        × Linked h' head (front ++ (last ∷ ys)) 0
        × ((j : ℕ) → (h' j).buf ≡ (h j).buf)
  unfolding append_for_output_filter
  append_for_output_filter-Linked fuel h head suffix last front [] l k al s away apart = (
    h,
    ap (λ o. if_found o (joined a h head suffix)) (tail-last a fuel h head last front l k al)
        ∙ (ap some (
            ap (λ x. if x == 0 then given a h head else given a (set_next last x h) head) s
            ∙ head-given a h h head last front k al)),
    k,
    λ j. refl,
  )
  append_for_output_filter-Linked fuel h head suffix last front (y ∷ ys) l k al s away apart = (
    set_next last suffix h,
    ap (λ o. if_found o (joined a h head suffix)) (tail-last a fuel h head last front l k al)
        ∙ (ap some (
            ground
              (arith, s.0, s.1, head-given a h (set_next last suffix h) head last front k al))),
    joined-Linked h head suffix last front (y ∷ ys) k s away apart,
    set_next-buf last suffix h,
  )
