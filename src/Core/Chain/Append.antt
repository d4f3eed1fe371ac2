-- ===== src/Core/Chain/Append.antt =====
-- src/core/chain.rs: what a chain holds after a link or another chain is appended to it.
use ngx_rust.Prelude.{
  ℕ, ◌≡◌, ◌≢◌, refl, sym, ap, ◌∙◌, subst, false, ◌⊎◌, inl, inr, Option, none, some, List, [], ◌∷◌,
  ◌++◌, ◌==◌, ok, put, put-same, put-other, arith,
}
use ngx_rust.Core.Chain.{
  Link, Links, set_next, PoolChain, extended, extend, append_raw, append, append_chain, moved, zip,
}
use ngx_rust.Core.Chain.Paths.{
  Linked, Avoids, EndsApart, Linked-frame, Linked-append, Avoids-append, Avoids-left, Avoids-last,
  append_assoc, EndsApart-last, empty_append,
}

-- The chain's links: none, or those up to the tail, whose next link is null.
abbrev pub Holds : Links → PoolChain → List ℕ → Type 0
Holds h c ls =
    ((c.head ≡ none) × (c.tail ≡ none) × (ls ≡ []))
    ⊎ ((first : ℕ) × (last : ℕ) × (front : List ℕ) × (c.head ≡ some first)
        × (c.tail ≡ some last)
        × (ls ≡ front ++ (last ∷ []))
        × Linked h first front last
        × Avoids last front
        × ((last == 0) ≡ false)
        × ((h last).next ≡ 0))

extend-Holds :
    (h : Links) (c : PoolChain) (xs : List ℕ) (first last : ℕ) (front : List ℕ)
    → Holds h c xs
    → Linked h first front last
    → Avoids last front
    → (last == 0) ≡ false
    → (h last).next ≡ 0
    → EndsApart xs (front ++ (last ∷ []))
    → Avoids last xs
    → Holds (extend first last h c).0 (extend first last h c).1 (xs ++ (front ++ (last ∷ [])))
unfolding extend
extend-Holds h c xs first last front (inl (hn, tn, e)) links away good ends apart distinct =
    subst
      (λ t.
        Holds (extended t first last h c).0 (extended t first last h c).1
          (xs ++ (front ++ (last ∷ []))))
      (sym tn)
      (inr (
        first,
        last,
        front,
        refl,
        refl,
        ap (λ z. z ++ (front ++ (last ∷ []))) e,
        links,
        away,
        good,
        ends,
      ))
extend-Holds h c xs first last front (inr (f0, l0, fr0, hs, ts, e, links0, away0, good0, ends0))
      links away good ends apart distinct =
    subst
      (λ t.
        Holds (extended t first last h c).0 (extended t first last h c).1
          (xs ++ (front ++ (last ∷ []))))
      (sym ts) (inr (f0, last, fr0 ++ (l0 ∷ front), hs, refl, whole, path, avoids, good, still))
  where
    whole : xs ++ (front ++ (last ∷ [])) ≡ (fr0 ++ (l0 ∷ front)) ++ (last ∷ [])
    whole =
        ap (λ z. z ++ (front ++ (last ∷ []))) e
        ∙ append_assoc fr0 (l0 ∷ []) (front ++ (last ∷ []))
        ∙ sym (append_assoc fr0 (l0 ∷ front) (last ∷ []))

    l0_apart : Avoids l0 (front ++ (last ∷ []))
    l0_apart =
        EndsApart-last fr0 l0 (front ++ (last ∷ []))
          (subst (λ z. EndsApart z (front ++ (last ∷ []))) e apart)

    last_apart : Avoids last (fr0 ++ (l0 ∷ []))
    last_apart = subst (Avoids last) e distinct

    l0_next : first ≡ (set_next l0 first h l0).next
    l0_next =
        sym (ap (λ (l : Link). l.next) (put-same l0 (record { buf = (h l0).buf; next = first }) h))

    path : Linked (set_next l0 first h) f0 (fr0 ++ (l0 ∷ front)) last
    path =
        Linked-append (set_next l0 first h) f0 l0 last fr0 (l0 ∷ front)
          (Linked-frame h f0 l0 l0 (record { buf = (h l0).buf; next = first }) fr0 away0 links0)
          (
            refl,
            good0,
            subst (λ b. Linked (set_next l0 first h) b front last) l0_next
                (Linked-frame h first last l0 (record { buf = (h l0).buf; next = first }) front
                  (Avoids-left l0 front (last ∷ []) l0_apart) links),
          )

    avoids : Avoids last (fr0 ++ (l0 ∷ front))
    avoids =
        Avoids-append last fr0 (l0 ∷ front) (Avoids-left last fr0 (l0 ∷ []) last_apart)
          (Avoids-last last fr0 l0 last_apart, away)

    still : (set_next l0 first h last).next ≡ 0
    still =
        ap (λ (l : Link). l.next)
          (put-other l0 (record { buf = (h l0).buf; next = first }) h last
            (Avoids-last l0 front last l0_apart))
        ∙ ends

pub set_next-buf : (at to : ℕ) (h : Links) (j : ℕ) → (set_next at to h j).buf ≡ (h j).buf
unfolding put
set_next-buf at to h j = ground arith

extend-buf :
    (first last : ℕ) (h : Links) (c : PoolChain) (j : ℕ)
    → ((extend first last h c).0 j).buf ≡ (h j).buf
unfolding extend
extend-buf first last h c j = by_tail c.tail
  where
    by_tail : (t : Option ℕ) → ((extended t first last h c).0 j).buf ≡ (h j).buf
    by_tail none = refl
    by_tail (some at) = set_next-buf at first h j

-- The state after an append.
abbrev Appended : Links → List ℕ → Links × PoolChain × PoolChain → Type 0
Appended h zs o = Holds o.0 o.1 zs × Holds o.0 o.2 [] × ((j : ℕ) → (o.0 j).buf ≡ (h j).buf)

moved-Appended :
    (h : Links) (c d : PoolChain) (xs ys : List ℕ)
    → Holds h c xs
    → Holds h d ys
    → EndsApart xs ys
    → EndsApart ys xs
    → Appended h (xs ++ ys) (moved (zip d.head d.tail) h c d)
moved-Appended h c d xs ys k (inl (hn, tn, e)) apart apart' =
    subst (λ o. Appended h (xs ++ ys) (moved o h c d)) (λ i. zip (sym hn i) (sym tn i))
      (
        subst (Holds h c) (empty_append xs ∙ ap (λ z. xs ++ z) (sym e)) k,
        inl (hn, tn, refl),
        λ j. refl,
      )
moved-Appended h c d xs ys k (inr (first, last, front, hs, ts, e, links, away, good, ends)) apart
      apart' =
    subst (λ o. Appended h (xs ++ ys) (moved o h c d)) (λ i. zip (sym hs i) (sym ts i))
      (
        subst (λ z. Holds (extend first last h c).0 (extend first last h c).1 (xs ++ z)) (sym e)
            (extend-Holds h c xs first last front k links away good ends
              (subst (EndsApart xs) e apart)
              (EndsApart-last front last xs (subst (λ z. EndsApart z xs) e apart'))),
        inl (refl, refl, refl),
        λ j. extend-buf first last h c j,
      )

-- Appending one chain to another of the same pool succeeds and joins their links in order: the
-- candidate is left empty, and every link keeps its buffer.
pub append_chain-Holds :
    (h : Links) (c d : PoolChain) (xs ys : List ℕ)
    → c.pool ≡ d.pool
    → Holds h c xs
    → Holds h d ys
    → EndsApart xs ys
    → EndsApart ys xs
    → (h' : Links) × (c' : PoolChain) × (d' : PoolChain) × (append_chain h c d ≡ ok (h', c', d'))
      × Holds h' c' (xs ++ ys)
      × Holds h' d' []
      × ((j : ℕ) → (h' j).buf ≡ (h j).buf)
unfolding append_chain
append_chain-Holds h c d xs ys pool k l apart apart' =
    let o = moved (zip d.head d.tail) h c d in
    let done = moved-Appended h c d xs ys k l apart apart' in
    (o.0, o.1, o.2, ground (arith, pool), done.0, done.1, done.2)

-- Appending a buffer on a new link puts it last and leaves the other links' buffers.
pub append-Holds :
    (h : Links) (c : PoolChain) (xs : List ℕ) (link raw : ℕ)
    → Holds h c xs
    → Avoids link xs
    → EndsApart xs (link ∷ [])
    → (link == 0) ≡ false
    → (raw == 0) ≡ false
    → (h' : Links) × (c' : PoolChain) × (append (some link) raw h c ≡ ok (h', c'))
      × Holds h' c' (xs ++ (link ∷ []))
      × ((h' link).buf ≡ raw)
      × ((j : ℕ) → j ≢ link → (h' j).buf ≡ (h j).buf)
unfolding append append_raw
append-Holds h c xs link raw k away apart good there =
    let o = extend link link (put link new h) c in
    (
      o.0,
      o.1,
      rw there refl,
      extend-Holds (put link new h) c xs link link [] (framed k) refl tt good
          (ap (λ (l : Link). l.next) (put-same link new h)) apart away,
      extend-buf link link (put link new h) c link ∙ ap (λ (l : Link). l.buf) (put-same link new h),
      λ j other.
          extend-buf link link (put link new h) c j
          ∙ ap (λ (l : Link). l.buf) (put-other link new h j other),
    )
  where
    new : Link
    new = record { buf = raw; next = 0 }

    framed : Holds h c xs → Holds (put link new h) c xs
    framed (inl e) = inl e
    framed (inr (first, last, front, hs, ts, e, links, off, fine, ends)) =
        let apart_all = subst (Avoids link) e away in
        inr (
          first,
          last,
          front,
          hs,
          ts,
          e,
          Linked-frame h first last link new front (Avoids-left link front (last ∷ []) apart_all)
              links,
          off,
          fine,
          ap (λ (l : Link). l.next)
                (put-other link new h last (Avoids-last link front last apart_all))
              ∙ ends,
        )
