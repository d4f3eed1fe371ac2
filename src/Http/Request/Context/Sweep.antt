-- ===== src/Http/Request/Context/Sweep.antt =====
-- src/http/request/context.rs: what the loops over the registrations do.
use ngx_rust.Prelude.{
  ℕ, zero, suc, ◌<◌, ◌≡◌, ◌≢◌, refl, sym, subst, Bool, true, false, ◌&&◌, ◌||◌, not, List, [], ◌∷◌,
  ◌==◌, if◌then◌else◌, put, length, arith, Bool-cases, inl, inr,
}
use ngx_rust.Http.Request.Context.{
  Registrations, World, cancel, cancel_if, has_stale, cancel_stale, cancel_stale_from,
}

-- The registrations from an address on.
abbrev pub Chain : (ℕ → ℕ) → ℕ → List ℕ → Type 0
Chain next at [] = at ≡ 0
Chain next at (a ∷ rs) = (at ≡ a) × (a ≢ 0) × Chain next (next a) rs

abbrev pub is_in : ℕ → List ℕ → Bool
is_in k [] = false
is_in k (a ∷ rs) = (a == k) || is_in k rs

module _ (r : Registrations) where
  -- An active registration whose slot holds another context than its own.
  abbrev pub IsOutdated : World → ℕ → Type 0
  IsOutdated w k = (w.active k ≡ true) × (w.slots (r.slot_of k) ≢ r.context_of k)

  abbrev pub outdated : World → ℕ → Bool
  outdated w k = w.active k && not (w.slots (r.slot_of k) == r.context_of k)

  -- What a sweep of stale contexts leaves: those of the list are inactive, every other registration
  -- and every slot is as it was.
  abbrev pub IsSwept : List ℕ → World → World → ℕ → Type 0
  IsSwept rs w w' k =
      (w'.active k ≡ (if is_in k rs && outdated w k then false else w.active k))
      × (w'.slots ≡ w.slots)
      × (w'.next ≡ w.next)
      × (w'.first ≡ w.first)

  abbrev pub SameReads : World → World → Type 0
  SameReads w w' = (w'.generation ≡ w.generation) × (w'.client_body_read ≡ w.client_body_read)

  cancel_if-IsSwept :
      (a : ℕ) (w : World) (k : ℕ) → IsSwept (a ∷ []) w (cancel_if r (outdated w a) a w) k
  unfolding cancel put
  cancel_if-IsSwept a w k = ground arith

  cancel_if-next : (t : Bool) (a : ℕ) (w : World) → (cancel_if r t a w).next ≡ w.next
  unfolding cancel
  cancel_if-next true a w = ground arith
  cancel_if-next false a w = refl

  cancel_if-SameReads : (t : Bool) (a : ℕ) (w : World) → SameReads w (cancel_if r t a w)
  unfolding cancel
  cancel_if-SameReads true a w = ground arith
  cancel_if-SameReads false a w = (refl, refl)

  pub sweep :
      (fuel : ℕ) (rs : List ℕ) (at : ℕ) (done : Bool) (w : World) (k : ℕ)
      → Chain w.next at rs
      → length rs < fuel
      → IsSwept rs w (cancel_stale_from r fuel at done w).1 k
  unfolding cancel_stale_from
  sweep zero rs at done w k c lt = absurd (omega arith)
  sweep (suc fuel) [] at done w k c lt = ground arith
  sweep (suc fuel) (a ∷ rs) at done w k c lt =
      let w' = cancel_if r (outdated w a) a w in
      let one : IsSwept (a ∷ []) w w' k = cancel_if-IsSwept a w k in
      let next : Chain w'.next (w.next a) rs =
        subst (λ (f : ℕ → ℕ). Chain f (w.next a) rs) (sym one.2) c.2 in
      let rest = sweep fuel rs (w.next a) (done || outdated w a) w' k next (omega arith) in
      ground (arith, c.0, c.1, one, rest)

  sweep-SameReads :
      (fuel at : ℕ) (done : Bool) (w : World) → SameReads w (cancel_stale_from r fuel at done w).1
  unfolding cancel_stale_from
  sweep-SameReads zero at done w = (refl, refl)
  sweep-SameReads (suc fuel) at done w =
      let w' = cancel_if r (outdated w at) at w in
      ground (
        arith,
        cancel_if-SameReads (outdated w at) at w,
        sweep-SameReads fuel (w.next at) (done || outdated w at) w',
      )

  pub cancel_stale-SameReads : (fuel : ℕ) (w : World) → SameReads w (cancel_stale r fuel w).1
  unfolding cancel_stale
  cancel_stale-SameReads fuel w = sweep-SameReads fuel w.first false w

  has_stale-none :
      (fuel : ℕ) (rs : List ℕ) (at : ℕ) (w : World)
      → Chain w.next at rs
      → ((k : ℕ) → is_in k rs ≡ true → outdated w k ≡ false)
      → has_stale r fuel at w ≡ false
  unfolding has_stale
  has_stale-none zero rs at w c none_stale = refl
  has_stale-none (suc fuel) [] at w c none_stale = ground arith
  has_stale-none (suc fuel) (a ∷ rs) at w c none_stale =
      let rest = has_stale-none fuel rs (w.next a) w c.2 (λ k m. none_stale k (ground arith)) in
      let fine : outdated w a ≡ false = none_stale a (ground arith) in
      ground (arith, c.0, c.1, rest, fine)

  -- Whether some registration of the list is outdated.
  abbrev any_outdated : List ℕ → World → Bool
  any_outdated [] w = false
  any_outdated (a ∷ rs) w = outdated w a || any_outdated rs w

  any_outdated-some :
      (rs : List ℕ) (w : World) (k : ℕ)
      → is_in k rs ≡ true
      → IsOutdated w k
      → any_outdated rs w ≡ true
  any_outdated-some [] w k m o = absurd (ground arith)
  any_outdated-some (a ∷ rs) w k m o = ground (arith, any_outdated-some rs w k)

  any_outdated-none :
      (rs : List ℕ) (w : World)
      → ((k : ℕ) → is_in k rs ≡ true → w.active k ≡ true → w.slots (r.slot_of k) ≡ r.context_of k)
      → any_outdated rs w ≡ false
  any_outdated-none [] w fine = refl
  any_outdated-none (a ∷ rs) w fine =
      let rest = any_outdated-none rs w (λ k m. fine k (ground arith)) in
      ground (arith, rest, fine a (ground arith))

  found :
      (fuel : ℕ) (rs : List ℕ) (at : ℕ) (done : Bool) (w : World)
      → Chain w.next at rs
      → length rs < fuel
      → (cancel_stale_from r fuel at done w).0 ≡ (done || any_outdated rs w)
  unfolding cancel_stale_from
  found zero rs at done w c lt = absurd (omega arith)
  found (suc fuel) [] at done w c lt = ground arith
  found (suc fuel) (a ∷ rs) at done w c lt = elim (Bool-cases (outdated w a)) [
    | inl e ↦
        let w' = cancel_if r (outdated w a) a w in
        let next : Chain w'.next (w.next a) rs =
          subst (λ (f : ℕ → ℕ). Chain f (w.next a) rs) (sym (cancel_if-next (outdated w a) a w))
            c.2 in
        let rest = found fuel rs (w.next a) (done || outdated w a) w' next (omega arith) in
        ground (arith, c.0, c.1, e, rest)
    | inr e ↦
        let rest = found fuel rs (w.next a) (done || false) w c.2 (omega arith) in
        ground (arith, c.0, c.1, e, rest)
  ]

  pub cancel_stale-found :
      (fuel : ℕ) (rs : List ℕ) (w : World) (k : ℕ)
      → Chain w.next w.first rs
      → length rs < fuel
      → is_in k rs ≡ true
      → IsOutdated w k
      → (cancel_stale r fuel w).0 ≡ true
  unfolding cancel_stale
  cancel_stale-found fuel rs w k c lt m o =
      ground (arith, found fuel rs w.first false w c lt, any_outdated-some rs w k m o)

  pub cancel_stale-none :
      (fuel : ℕ) (rs : List ℕ) (w : World)
      → Chain w.next w.first rs
      → length rs < fuel
      → ((k : ℕ) → is_in k rs ≡ true → w.active k ≡ true → w.slots (r.slot_of k) ≡ r.context_of k)
      → (cancel_stale r fuel w).0 ≡ false
  unfolding cancel_stale
  cancel_stale-none fuel rs w c lt fine =
      ground (arith, found fuel rs w.first false w c lt, any_outdated-none rs w fine)

  -- With more fuel than registrations, cancelling the stale contexts of a request makes each
  -- registration of its list inactive that is active while its slot holds another context than its
  -- own, and leaves every other registration, the list and all slots as they were. So every
  -- registration of the list that is still active has its own context in its slot, and a second
  -- search finds none that is stale.
  pub cancel_stale-IsSwept :
      (fuel : ℕ) (rs : List ℕ) (w : World) (k : ℕ)
      → Chain w.next w.first rs
      → length rs < fuel
      → let w' = (cancel_stale r fuel w).1 in
        (is_in k rs ≡ true
          → w.active k ≡ true
          → w.slots (r.slot_of k) ≢ r.context_of k
          → w'.active k ≡ false)
        × (is_in k rs ≡ false → w'.active k ≡ w.active k)
        × (w.slots (r.slot_of k) ≡ r.context_of k → w'.active k ≡ w.active k)
        × (w'.slots ≡ w.slots)
        × (w'.next ≡ w.next)
        × (w'.first ≡ w.first)
        × (is_in k rs ≡ true → w'.active k ≡ true → w'.slots (r.slot_of k) ≡ r.context_of k)
        × (has_stale r fuel w.first w' ≡ false)
  unfolding cancel_stale
  cancel_stale-IsSwept fuel rs w k c lt =
      let w' = (cancel_stale_from r fuel w.first false w).1 in
      let swept : (j : ℕ) → IsSwept rs w w' j = λ j. sweep fuel rs w.first false w j c lt in
      let next : Chain w'.next w.first rs =
        subst (λ (f : ℕ → ℕ). Chain f w.first rs) (sym (swept k).2) c in
      (
        λ m a n. ground (arith, swept k),
        λ m. ground (arith, swept k),
        λ e. ground (arith, swept k),
        (swept k).1,
        (swept k).2,
        (swept k).3,
        λ m a. ground (arith, swept k),
        has_stale-none fuel rs w.first w' next (λ j m. ground (arith, swept j)),
      )
