-- ===== src/Core/Chain/Paths.antt =====
-- src/core/chain.rs: links that lead from one address to another, and the links that they avoid.
use ngx_rust.Prelude.{
  ℕ, ◌≡◌, ◌≢◌, refl, sym, ap, subst, false, List, [], ◌∷◌, ◌++◌, ◌==◌, put, put-other,
}
use ngx_rust.Core.Chain.{Link, Links}

-- The links from `a` to `z`, and that a link is none of them.
abbrev pub Linked : Links → ℕ → List ℕ → ℕ → Type 0
Linked h a [] z = a ≡ z
Linked h a (l ∷ ls) z = (a ≡ l) × ((l == 0) ≡ false) × Linked h (h l).next ls z

abbrev pub Avoids : ℕ → List ℕ → Type 0
Avoids at [] = Unit
Avoids at (l ∷ ls) = (l ≢ at) × Avoids at ls

pub Linked-frame :
    (h : Links) (a z at : ℕ) (l : Link) (ls : List ℕ)
    → Avoids at ls
    → Linked h a ls z
    → Linked (put at l h) a ls z
Linked-frame h a z at l [] f k = k
Linked-frame h a z at l (x ∷ ls) f k = (
  k.0,
  k.1,
  subst (λ (y : Link). Linked (put at l h) y.next ls z) (sym (put-other at l h x f.0))
      (Linked-frame h (h x).next z at l ls f.1 k.2),
)

pub Linked-append :
    (h : Links) (a m z : ℕ) (xs ys : List ℕ)
    → Linked h a xs m
    → Linked h m ys z
    → Linked h a (xs ++ ys) z
Linked-append h a m z [] ys k l = subst (λ b. Linked h b ys z) (sym k) l
Linked-append h a m z (x ∷ xs) ys k l = (k.0, k.1, Linked-append h (h x).next m z xs ys k.2 l)

pub Avoids-append : (at : ℕ) (xs ys : List ℕ) → Avoids at xs → Avoids at ys → Avoids at (xs ++ ys)
Avoids-append at [] ys h k = k
Avoids-append at (x ∷ xs) ys h k = (h.0, Avoids-append at xs ys h.1 k)

pub Avoids-left : (at : ℕ) (xs ys : List ℕ) → Avoids at (xs ++ ys) → Avoids at xs
Avoids-left at [] ys h = tt
Avoids-left at (x ∷ xs) ys h = (h.0, Avoids-left at xs ys h.1)

pub Avoids-last : (at : ℕ) (xs : List ℕ) (l : ℕ) → Avoids at (xs ++ (l ∷ [])) → l ≢ at
Avoids-last at [] l h = h.0
Avoids-last at (x ∷ xs) l h = Avoids-last at xs l h.1

pub append_assoc : {A : Type 0} (xs ys zs : List A) → (xs ++ ys) ++ zs ≡ xs ++ (ys ++ zs)
append_assoc [] ys zs = refl
append_assoc (x ∷ xs) ys zs = ap (λ r. x ∷ r) (append_assoc xs ys zs)

-- The last link of one list is no link of the other.
abbrev pub EndsApart : List ℕ → List ℕ → Type 0
EndsApart [] ys = Unit
EndsApart (x ∷ []) ys = Avoids x ys
EndsApart (x ∷ y ∷ xs) ys = EndsApart (y ∷ xs) ys

pub EndsApart-last :
    (xs : List ℕ) (l : ℕ) (ys : List ℕ) → EndsApart (xs ++ (l ∷ [])) ys → Avoids l ys
EndsApart-last [] l ys h = h
EndsApart-last (x ∷ []) l ys h = h
EndsApart-last (x ∷ y ∷ xs) l ys h = EndsApart-last (y ∷ xs) l ys h

pub empty_append : (xs : List ℕ) → xs ≡ xs ++ []
empty_append [] = refl
empty_append (x ∷ xs) = ap (λ r. x ∷ r) (empty_append xs)
