-- ===== src/Collections/NgxQueue/Segment.antt =====
-- Linked segments of a heap of links, and the heap with both directions exchanged.
use mathlib.Core.List.{reverse, reverse-cons}
use ngx_rust.Prelude.{ℕ, ◌≡◌, sym, ◌≢◌, List, [], ◌∷◌, ◌++◌}
use ngx_rust.Collections.NgxQueue.{Links}

abbrev pub All {κ} : (ℕ → Type κ) → List ℕ → Type κ
All P [] = Unit
All P (x ∷ xs) = P x × All P xs

pub All-append {κ} : (P : ℕ → Type κ) (xs ys : List ℕ) → All P xs → All P ys → All P (xs ++ ys)
All-append P [] ys none_left tail = tail
All-append P (x ∷ xs) ys (here, later) tail = (here, All-append P xs ys later tail)

pub All-left {κ} : (P : ℕ → Type κ) (xs ys : List ℕ) → All P (xs ++ ys) → All P xs
All-left P [] ys h = tt
All-left P (x ∷ xs) ys h = (h.0, All-left P xs ys h.1)

pub All-right {κ} : (P : ℕ → Type κ) (xs ys : List ℕ) → All P (xs ++ ys) → All P ys
All-right P [] ys h = h
All-right P (x ∷ xs) ys h = All-right P xs ys h.1

pub All-map {κ ℓ} :
    (P : ℕ → Type κ) (Q : ℕ → Type ℓ) (xs : List ℕ) → ((a : ℕ) → P a → Q a) → All P xs → All Q xs
All-map P Q [] f h = tt
All-map P Q (x ∷ xs) f h = (f x h.0, All-map P Q xs f h.1)

pub All-reverse {κ} : (P : ℕ → Type κ) (xs : List ℕ) → All P xs → All P (reverse xs)
All-reverse P [] h = tt
All-reverse P (x ∷ xs) h =
    rw (reverse-cons x xs) (All-append P (reverse xs) (x ∷ []) (All-reverse P xs h.1) (h.0, tt))

-- `a` is none of `xs`.
abbrev pub Fresh : ℕ → List ℕ → Type 0
Fresh a = All (λ x. x ≢ a)

abbrev pub Distinct : List ℕ → Type 0
Distinct [] = Unit
Distinct (x ∷ xs) = Fresh x xs × Distinct xs

-- From `a` the links lead through `xs` to `b`, and back.
abbrev pub Seg : Links → ℕ → List ℕ → ℕ → Type 0
Seg h a [] b = (h.next a ≡ b) × (h.prev b ≡ a)
Seg h a (x ∷ xs) b = (h.next a ≡ x) × (h.prev x ≡ a) × Seg h x xs b

pub Seg-append :
    (h : Links) (a : ℕ) (xs : List ℕ) (x : ℕ) (ys : List ℕ) (b : ℕ)
    → Seg h a xs x
    → Seg h x ys b
    → Seg h a (xs ++ x ∷ ys) b
Seg-append h a [] x ys b p q = (p.0, p.1, q)
Seg-append h a (z ∷ xs) x ys b p q = (p.0, p.1, Seg-append h z xs x ys b p.2 q)

pub Seg-split :
    (h : Links) (a : ℕ) (xs : List ℕ) (x : ℕ) (ys : List ℕ) (b : ℕ)
    → Seg h a (xs ++ x ∷ ys) b
    → Seg h a xs x × Seg h x ys b
Seg-split h a [] x ys b p = ((p.0, p.1), p.2)
Seg-split h a (z ∷ xs) x ys b p = let (l, r) = Seg-split h z xs x ys b p.2 in ((p.0, p.1, l), r)

-- A segment stays where the links that it reads stay.
pub Seg-frame :
    (h k : Links) (a : ℕ) (xs : List ℕ) (b : ℕ)
    → All (λ p. k.next p ≡ h.next p) (a ∷ xs)
    → All (λ p. k.prev p ≡ h.prev p) (b ∷ xs)
    → Seg h a xs b
    → Seg k a xs b
Seg-frame h k a [] b n p s = (cc (n.0, s.0), cc (p.0, s.1))
Seg-frame h k a (x ∷ xs) b n p s =
    (cc (n.0, s.0), cc (p.1.0, s.1), Seg-frame h k x xs b n.1 (p.0, p.1.1) s.2)

abbrev pub mirror : Links → Links
mirror h = record { next = h.prev; prev = h.next }

-- Read backwards, a segment is the reversed segment of the mirrored heap.
pub Seg-mirror :
    (h : Links) (a : ℕ) (xs : List ℕ) (b : ℕ) → Seg h a xs b → Seg (mirror h) b (reverse xs) a
Seg-mirror h a [] b s = (s.1, s.0)
Seg-mirror h a (x ∷ xs) b s =
    rw (reverse-cons x xs)
      (Seg-append (mirror h) b (reverse xs) x [] a (Seg-mirror h x xs b s.2) (s.1, s.0))

Distinct-snoc : (xs : List ℕ) (x : ℕ) → Distinct xs → Fresh x xs → Distinct (xs ++ x ∷ [])
Distinct-snoc [] x d f = (tt, tt)
Distinct-snoc (y ∷ xs) x d f =
    (All-append (λ z. z ≢ y) xs (x ∷ []) d.0 (λ e. f.0 (sym e), tt), Distinct-snoc xs x d.1 f.1)

pub Distinct-reverse : (xs : List ℕ) → Distinct xs → Distinct (reverse xs)
Distinct-reverse [] d = tt
Distinct-reverse (x ∷ xs) d =
    rw (reverse-cons x xs)
      (Distinct-snoc (reverse xs) x (Distinct-reverse xs d.1) (All-reverse (λ z. z ≢ x) xs d.0))

-- What is left of a distinct list when one item is taken out.
pub Distinct-remove :
    (xs : List ℕ) (x : ℕ) (ys : List ℕ) → Distinct (xs ++ x ∷ ys) → Distinct (xs ++ ys)
Distinct-remove [] x ys d = d.1
Distinct-remove (z ∷ xs) x ys d = (
  All-append (λ y. y ≢ z) xs ys (All-left (λ y. y ≢ z) xs (x ∷ ys) d.0)
      (All-right (λ y. y ≢ z) xs (x ∷ ys) d.0).1,
  Distinct-remove xs x ys d.1,
)

-- The item that was taken out is none of the others.
pub Distinct-middle :
    (xs : List ℕ) (x : ℕ) (ys : List ℕ) → Distinct (xs ++ x ∷ ys) → Fresh x (xs ++ ys)
Distinct-middle [] x ys d = d.0
Distinct-middle (z ∷ xs) x ys d =
    (λ e. (All-right (λ y. y ≢ z) xs (x ∷ ys) d.0).0 (sym e), Distinct-middle xs x ys d.1)

-- The entry before and the entry after a cut, or the sentinel.
abbrev pub last_or : ℕ → List ℕ → ℕ
last_or a [] = a
last_or a (x ∷ xs) = last_or x xs

abbrev pub head_or : ℕ → List ℕ → ℕ
head_or b [] = b
head_or b (y ∷ ys) = y

pub prev-last_or :
    (h : Links) (a : ℕ) (xs : List ℕ) (b : ℕ) → Seg h a xs b → h.prev b ≡ last_or a xs
prev-last_or h a [] b s = s.1
prev-last_or h a (x ∷ xs) b s = prev-last_or h x xs b s.2

pub next-head_or :
    (h : Links) (a : ℕ) (ys : List ℕ) (b : ℕ) → Seg h a ys b → h.next a ≡ head_or b ys
next-head_or h a [] b s = s.0
next-head_or h a (y ∷ ys) b s = s.0

pub next-last_or :
    (h : Links) (a : ℕ) (xs : List ℕ) (b : ℕ) → Seg h a xs b → h.next (last_or a xs) ≡ b
next-last_or h a [] b s = s.0
next-last_or h a (x ∷ xs) b s = next-last_or h x xs b s.2

pub prev-head_or :
    (h : Links) (a : ℕ) (ys : List ℕ) (b : ℕ) → Seg h a ys b → h.prev (head_or b ys) ≡ a
prev-head_or h a [] b s = s.1
prev-head_or h a (y ∷ ys) b s = s.1

-- Either neighbour has whatever all the entries and the sentinel have.
pub last_or-All {κ} : (P : ℕ → Type κ) (a : ℕ) (xs : List ℕ) → P a → All P xs → P (last_or a xs)
last_or-All P a [] p h = p
last_or-All P a (x ∷ xs) p h = last_or-All P x xs h.0 h.1

pub head_or-All {κ} : (P : ℕ → Type κ) (b : ℕ) (ys : List ℕ) → P b → All P ys → P (head_or b ys)
head_or-All P b [] p h = p
head_or-All P b (y ∷ ys) p h = h.0

pub last_or-ne : (a z : ℕ) (zs : List ℕ) → Fresh a (z ∷ zs) → last_or z zs ≢ a
last_or-ne a z [] f = f.0
last_or-ne a z (w ∷ ws) f = last_or-ne a w ws f.1

pub head_or-ne : (b z : ℕ) (ys : List ℕ) → b ≢ z → Fresh z ys → head_or b ys ≢ z
head_or-ne b z [] n f = n
head_or-ne b z (y ∷ ys) n f = f.0
