-- ===== src/Sync/Weights.antt =====
-- src/sync.rs: the threads that hold the lock, counted, and what one access does to the counts.
use ngx_rust.Prelude.{
  ℕ, zero, suc, ◌+◌, ◌≤◌, ◌<◌, ◌≡◌, ◌≢◌, refl, ap, subst, ◌⊎◌, arith, put, put-same, put-other,
}
use native.Mathlib.Decide.{ℕ_discrete}
use ngx_rust.Sync.{
  Thread, idle, reading, writing, loaded, Wish, shared, exclusive, wlock, advance, load_shared,
  exchange_shared, unlock_shared, try_lock_exclusive, unlock_exclusive, System,
}

-- The sum of a weight over the threads below a bound.
abbrev pub sum : (Thread → ℕ) → ℕ → (ℕ → Thread) → ℕ
sum g zero f = 0
sum g (suc n) f = g (f n) + sum g n f

abbrev pub reader : Thread → ℕ
reader reading = 1
reader t = 0

abbrev pub writer : Thread → ℕ
writer writing = 1
writer t = 0

pub sum-put_above :
    (g : Thread → ℕ) (n i : ℕ) (t : Thread) (f : ℕ → Thread)
    → n ≤ i
    → sum g n (put i t f) ≡ sum g n f
sum-put_above g zero i t f h = refl
sum-put_above g (suc n) i t f h =
    omega
      (arith, sum-put_above g n i t f (omega arith), ap g (put-other i t f n (λ e. omega arith)))

-- A thread that changes changes the sum by its weight.
pub sum-put :
    (g : Thread → ℕ) (n i : ℕ) (t : Thread) (f : ℕ → Thread)
    → i < n
    → sum g n (put i t f) + g (f i) ≡ sum g n f + g t
sum-put g zero i t f h = absurd (omega arith)
sum-put g (suc n) i t f h = elim (ℕ_discrete n i) [
  | yes e ↦
      subst (λ x. sum g (suc n) (put x t f) + g (f x) ≡ sum g (suc n) f + g t) e
        (omega (arith, sum-put_above g n n t f (omega arith), ap g (put-same n t f)))
  | no ne ↦ omega (arith, sum-put g n i t f (omega arith), ap g (put-other i t f n ne))
]

pub sum-le : (g : Thread → ℕ) (n i : ℕ) (f : ℕ → Thread) → i < n → g (f i) ≤ sum g n f
sum-le g zero i f h = absurd (omega arith)
sum-le g (suc n) i f h = elim (ℕ_discrete n i) [
  | yes e ↦ subst (λ x. g (f x) ≤ sum g (suc n) f) e (omega arith)
  | no ne ↦ omega (arith, sum-le g n i f (omega arith))
]

pub reader-le : (t : Thread) → reader t ≤ 1
reader-le idle = omega arith
reader-le reading = omega arith
reader-le writing = omega arith
reader-le (loaded v) = omega arith

pub readers-le : (n : ℕ) (f : ℕ → Thread) → sum reader n f ≤ n
readers-le zero f = omega arith
readers-le (suc n) f = omega (arith, readers-le n f, reader-le (f n))

-- The word counts the readers, or marks the one writer.
abbrev pub Counts : ℕ → ℕ → System → Type 0
Counts w n s =
    ((sum writer n s.threads ≡ 0) × (s.value ≡ sum reader n s.threads))
    ⊎ ((sum writer n s.threads ≡ 1) × (sum reader n s.threads ≡ 0) × (s.value ≡ wlock w))

-- A reader that has loaded the word saw no writer.
abbrev pub IsFresh : ℕ → Thread → Type 0
IsFresh w idle = Unit
IsFresh w reading = Unit
IsFresh w writing = Unit
IsFresh w (loaded v) = v ≢ wlock w

-- What an access does to the counts, one thread's weights being replaced.
pub advance-counts :
    (w r x : ℕ) (wish : Wish) (t : Thread) (value : ℕ)
    → r + reader t < wlock w
    → IsFresh w t
    → ((x + writer t ≡ 0) × (value ≡ r + reader t))
      ⊎ ((x + writer t ≡ 1) × (r + reader t ≡ 0) × (value ≡ wlock w))
    → let (t', v) = advance w wish t value in
      ((x + writer t' ≡ 0) × (v ≡ r + reader t'))
      ⊎ ((x + writer t' ≡ 1) × (r + reader t' ≡ 0) × (v ≡ wlock w))
unfolding load_shared exchange_shared unlock_shared try_lock_exclusive unlock_exclusive
advance-counts w r x shared idle value b k h = ground arith
advance-counts w r x exclusive idle value b k h = ground arith
advance-counts w r x wish (loaded seen) value b k h = ground arith
advance-counts w r x wish reading value b k h = ground arith
advance-counts w r x wish writing value b k h = ground arith

pub advance-IsFresh :
    (w : ℕ) (wish : Wish) (t : Thread) (value : ℕ) → IsFresh w (advance w wish t value).0
unfolding load_shared exchange_shared unlock_shared try_lock_exclusive unlock_exclusive
advance-IsFresh w shared idle value = ground arith
advance-IsFresh w exclusive idle value = ground arith
advance-IsFresh w wish (loaded seen) value = ground arith
advance-IsFresh w wish reading value = tt
advance-IsFresh w wish writing value = tt
