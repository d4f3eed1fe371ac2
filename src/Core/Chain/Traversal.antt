-- ===== src/Core/Chain/Traversal.antt =====
-- src/core/chain.rs: the length of a chain whose links and buffers are sound.
use ngx_rust.Prelude.{
  ℕ, zero, suc, ◌+◌, ◌%◌, ◌≡◌, ◌<◌, refl, ap, ◌∙◌, Bool, true, false, Option, none, some, List, [],
  ◌∷◌, length, ltb, ◌==◌, if◌then◌else◌, Result, ok, err, arith, Bool-cases, inl, inr,
}
use ngx_rust.Core.Buffer.{Buf, Platform, size}
use ngx_rust.Core.Chain.{
  Alignment, Links, ChainError, overflow, next, checked_add, add_size, at_item, at_total, len_from,
  len,
}

abbrev pub sum : List ℕ → ℕ
sum [] = 0
sum (n ∷ ns) = n + sum ns

module _ (a : Alignment) (p : Platform) (bufs : ℕ → Buf) where
  -- A chain of links whose pointers are sound, and the sizes of its buffers.
  abbrev pub Readable : Links → ℕ → List ℕ → Type 0
  Readable h at [] = at ≡ 0
  Readable h at (n ∷ ns) =
      ((at == 0) ≡ false)
      × ((at % a.link_align == 0) ≡ true)
      × (((h at).buf == 0) ≡ false)
      × (((h at).buf % a.buf_align == 0) ≡ true)
      × (size p (bufs (h at).buf) ≡ ok n)
      × Readable h (h at).next ns

  -- What `len` answers for a total: `usize::MAX` is the platform's.
  abbrev pub bounded : ℕ → Result ChainError ℕ
  bounded total = if ltb p.usize_max total then err overflow else ok total

  next-end : (h : Links) (at : ℕ) → at ≡ 0 → (next a h at).0 ≡ none
  unfolding next
  next-end h at e = ground arith

  next-link :
      (h : Links) (at n : ℕ) (ns : List ℕ)
      → Readable h at (n ∷ ns)
      → next a h at ≡ (some (ok (h at).buf), (h at).next)
  unfolding next
  next-link h at n ns r = ground (arith, r.0, r.1, r.2, r.3)

  add_size-ok :
      (h : Links) (at n total : ℕ) (ns : List ℕ)
      → Readable h at (n ∷ ns)
      → add_size p bufs total (ok (h at).buf) ≡ bounded (total + n)
  add_size-ok h at n total ns r = rw r.4 refl_lem
    where
      refl_lem : checked_add p total n ≡ bounded (total + n)
      refl_lem = elim (Bool-cases (ltb p.usize_max (total + n))) [
        | inl e ↦ rw e refl
        | inr e ↦ rw e refl
      ]

  bounded-more : (m n k : ℕ) → ltb p.usize_max (m + n) ≡ true → err overflow ≡ bounded (m + (n + k))
  bounded-more m n k h = ground arith

  len_from-bounded :
      (fuel : ℕ) (h : Links) (at total : ℕ) (ns : List ℕ)
      → length ns < fuel
      → ltb p.usize_max total ≡ false
      → Readable h at ns
      → len_from a p bufs fuel h at total ≡ some (bounded (total + sum ns))
  unfolding len_from
  len_from-bounded zero h at total ns l t r = absurd (omega arith)
  len_from-bounded (suc fuel) h at total [] l t r =
      ap
        (λ o. at_item o (some (ok total)) (λ item.
          at_total (add_size p bufs total item)
            (λ more. len_from a p bufs fuel h (next a h at).1 more)))
        (next-end h at r)
      ∙ ground arith
  len_from-bounded (suc fuel) h at total (n ∷ ns) l t r =
      ap
        (λ (o : Option (Result ChainError ℕ) × ℕ). at_item o.0 (some (ok total)) (λ item.
          at_total (add_size p bufs total item) (λ more. len_from a p bufs fuel h o.1 more)))
        (next-link h at n ns r)
      ∙ ap (λ t. at_total t (λ more. len_from a p bufs fuel h (h at).next more))
          (add_size-ok h at n total ns r)
      ∙ by_total (ltb p.usize_max (total + n)) refl
          (λ e. len_from-bounded fuel h (h at).next (total + n) ns (omega arith) e r.5)
    where
      by_total :
          (o : Bool)
          → ltb p.usize_max (total + n) ≡ o
          → (ltb p.usize_max (total + n) ≡ false
              → len_from a p bufs fuel h (h at).next (total + n)
                ≡ some (bounded (total + n + sum ns)))
          → at_total
              (if o then err overflow else ok (total + n))
              (λ more. len_from a p bufs fuel h (h at).next more)
            ≡ some (bounded (total + (n + sum ns)))
      by_total true e rest = ap some (bounded-more total n (sum ns) e)
      by_total false e rest = rest e ∙ ap (λ k. some (bounded k)) (omega arith)

  -- The length of a readable chain is the sum of the sizes of its buffers, or the overflow where that
  -- sum is more than `usize` holds, with one item more of fuel than the chain has links.
  pub len-bounded :
      (fuel : ℕ) (h : Links) (at : ℕ) (ns : List ℕ)
      → length ns < fuel
      → Readable h at ns
      → len a p bufs fuel h at
        ≡ some (if ltb p.usize_max (sum ns) then err overflow else ok (sum ns))
  unfolding len
  len-bounded fuel h at ns l r =
      len_from-bounded fuel h at 0 ns l (ground arith) r ∙ ap (λ k. some (bounded k)) (omega arith)
