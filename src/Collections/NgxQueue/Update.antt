-- ===== src/Collections/NgxQueue/Update.antt =====
-- nginx-sys/src/core/queue.rs: what the linking functions do to the list that a heap holds.
use mathlib.Core.List.{reverse, reverse-reverse, reverse-cons}
use ngx_rust.Prelude.{ℕ, ◌≡◌, refl, sym, ap, ◌∙◌, subst, ◌≢◌, List, [], ◌∷◌, ◌++◌, arith}
use ngx_rust.Collections.NgxQueue.{
  Links, update, ngx_queue_init, ngx_queue_insert_after, ngx_queue_insert_before, ngx_queue_remove,
}
use ngx_rust.Collections.NgxQueue.Segment.{
  All, All-left, All-map, All-right, Fresh, Distinct, Seg, Seg-split, Seg-frame, mirror, Seg-mirror,
  Distinct-reverse, All-reverse, Distinct-remove, Distinct-middle, last_or, head_or, prev-last_or,
  next-head_or, last_or-ne, head_or-ne,
}

-- The sentinel `head` holds the entries `xs`, front to back.
pub record IsQueue (h : Links) (head : ℕ) (xs : List ℕ) : Type 0 where
  pub linked : Seg h head xs head
  pub distinct : Distinct (head ∷ xs)

pub init-IsQueue : (h : Links) (q : ℕ) → IsQueue (ngx_queue_init h q) q []
unfolding ngx_queue_init
init-IsQueue h q = record { linked = ground arith; distinct = (tt, tt) }

pub update-other :
    (f : ℕ → ℕ) (p v : ℕ) (xs : List ℕ) → Fresh p xs → All (λ a. update f p v a ≡ f a) xs
update-other f p v [] h = tt
update-other f p v (x ∷ xs) h = (ground (arith, h.0), update-other f p v xs h.1)

-- Two writes at addresses that the list does not hold.
update-others :
    (f : ℕ → ℕ) (p v q w : ℕ) (xs : List ℕ)
    → Fresh p xs
    → Fresh q xs
    → All (λ a. update (update f p v) q w a ≡ f a) xs
update-others f p v q w [] hp hq = tt
update-others f p v q w (x ∷ xs) hp hq =
    (ground (arith, hp.0, hq.0), update-others f p v q w xs hp.1 hq.1)

insert_after-Seg :
    (h : Links) (head x : ℕ) (xs : List ℕ)
    → Seg h head xs head
    → Distinct (head ∷ xs)
    → Fresh x (head ∷ xs)
    → Seg (ngx_queue_insert_after h head x) head (x ∷ xs) head
unfolding ngx_queue_insert_after
insert_after-Seg h head x [] s d f = ground (arith, f.0)
insert_after-Seg h head x (y ∷ ys) s d f =
    let e : update h.next x (h.next head) x ≡ y = ground (arith, s.0) in
    (
      ground (arith, f.0, f.1.0),
      ground arith,
      (
        ground (arith, s.0),
        ground (arith, f.1.0, s.0),
        Seg-frame h _ y ys head (update-others h.next x _ head _ (y ∷ ys) f.1 d.0)
            (update-others h.prev _ x x head (head ∷ ys)
              (subst (λ p. Fresh p (head ∷ ys)) (sym e) (λ q. d.0.0 (sym q), d.1.0)) (f.0, f.1.1))
            s.2,
      ),
    )

-- Inserting after the sentinel puts a new entry at the front.
pub insert_after-IsQueue :
    (h : Links) (head x : ℕ) (xs : List ℕ)
    → IsQueue h head xs
    → Fresh x (head ∷ xs)
    → IsQueue (ngx_queue_insert_after h head x) head (x ∷ xs)
insert_after-IsQueue h head x xs q f = record {
  linked = insert_after-Seg h head x xs q.linked q.distinct f;
  distinct = ((λ e. f.0 (sym e), q.distinct.0), (f.1, q.distinct.1));
}

pub mirror-IsQueue :
    (h : Links) (head : ℕ) (xs : List ℕ) → IsQueue h head xs → IsQueue (mirror h) head (reverse xs)
mirror-IsQueue h head xs q = record {
  linked = Seg-mirror h head xs head q.linked;
  distinct = (All-reverse (λ y. y ≢ head) xs q.distinct.0, Distinct-reverse xs q.distinct.1);
}

insert_before-mirror :
    (h : Links) (q x : ℕ)
    → mirror (ngx_queue_insert_after (mirror h) q x) ≡ ngx_queue_insert_before h q x
unfolding ngx_queue_insert_after ngx_queue_insert_before
insert_before-mirror h q x = refl

reverse-snoc : (xs : List ℕ) (x : ℕ) → reverse (x ∷ reverse xs) ≡ xs ++ x ∷ []
reverse-snoc xs x = reverse-cons x (reverse xs) ∙ ap (λ l. l ++ x ∷ []) (reverse-reverse xs)

-- Inserting before the sentinel puts a new entry at the back.
pub insert_before-IsQueue :
    (h : Links) (head x : ℕ) (xs : List ℕ)
    → IsQueue h head xs
    → Fresh x (head ∷ xs)
    → IsQueue (ngx_queue_insert_before h head x) head (xs ++ x ∷ [])
insert_before-IsQueue h head x xs q f =
    rw (← insert_before-mirror h head x, ← reverse-snoc xs x)
      (mirror-IsQueue _ head _ (
        insert_after-IsQueue (mirror h) head x (reverse xs) (mirror-IsQueue h head xs q)
          (f.0, All-reverse (λ y. y ≢ x) xs f.1)))

head_or-Fresh :
    (b : ℕ) (ys zs : List ℕ) → Fresh b zs → All (λ z. Fresh z ys) zs → Fresh (head_or b ys) zs
head_or-Fresh b [] zs f g = f
head_or-Fresh b (y ∷ ys) zs f g = All-map _ _ zs (λ z k e. k.0 (sym e)) g

-- The heap in which the segments before and after an entry are joined.
abbrev joined : Links → ℕ → ℕ → Links
joined h l r = record { next = update h.next l r; prev = update h.prev r l }

join_right :
    (h : Links) (a x : ℕ) (ys : List ℕ) (b : ℕ)
    → Fresh a ys
    → Fresh b ys
    → Distinct ys
    → Seg h x ys b
    → Seg (joined h a (head_or b ys)) a ys b
join_right h a x [] b fa fb d s = ground arith
join_right h a x (y ∷ ys) b fa fb d s = (
  ground arith,
  ground arith,
  Seg-frame h _ y ys b (update-other h.next a y (y ∷ ys) fa)
      (update-other h.prev y a (b ∷ ys) (λ e. fb.0 (sym e), d.0)) s.2,
)

join_Seg :
    (h : Links) (a : ℕ) (xs : List ℕ) (x : ℕ) (ys : List ℕ) (b : ℕ)
    → Fresh a (xs ++ ys)
    → Fresh b (xs ++ ys)
    → Distinct (xs ++ ys)
    → Seg h a xs x
    → Seg h x ys b
    → Seg (joined h (last_or a xs) (head_or b ys)) a (xs ++ ys) b
join_Seg h a [] x ys b fa fb d s t = join_right h a x ys b fa fb d t
join_Seg h a (z ∷ zs) x ys b fa fb d s t = (
  ground (arith, last_or-ne a z zs (All-left (λ y. y ≢ a) (z ∷ zs) ys fa), s.0),
  ground (arith, head_or-ne b z ys (λ e. fb.0 (sym e)) (All-right (λ y. y ≢ z) zs ys d.0), s.1),
  join_Seg h z zs x ys b d.0 fb.1 d.1 s.2 t,
)

remove-joined :
    (h : Links) (head : ℕ) (xs : List ℕ) (x : ℕ) (ys : List ℕ)
    → Distinct (head ∷ xs ++ x ∷ ys)
    → Seg h head xs x
    → Seg h x ys head
    → ngx_queue_remove h x ≡ joined h (last_or head xs) (head_or head ys)
unfolding ngx_queue_remove
remove-joined h head xs x ys d s t =
    let n = next-head_or h x ys head t in
    let p = prev-last_or h head xs x s in
    let ne : head_or head ys ≢ x =
      head_or-ne head x ys (λ e. (All-right (λ y. y ≢ head) xs (x ∷ ys) d.0).0 (sym e))
        (All-right (λ y. y ≢ x) xs ys (Distinct-middle xs x ys d.1)) in
    let u : update h.prev (h.next x) (h.prev x) x ≡ h.prev x = ground (arith, ne, n) in rw (u, n, p)

-- Removing an entry joins its neighbours, and leaves the entry's own links as they were.
pub remove-IsQueue :
    (h : Links) (head : ℕ) (xs : List ℕ) (x : ℕ) (ys : List ℕ)
    → IsQueue h head (xs ++ x ∷ ys)
    → IsQueue (ngx_queue_remove h x) head (xs ++ ys)
remove-IsQueue h head xs x ys q =
    let (s, t) = Seg-split h head xs x ys head q.linked in
    let d = Distinct-remove (head ∷ xs) x ys q.distinct in
    rw (remove-joined h head xs x ys q.distinct s t)
      (record { linked = join_Seg h head xs x ys head d.0 d.0 d.1 s t; distinct = d })
