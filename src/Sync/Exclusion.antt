-- ===== src/Sync/Exclusion.antt =====
-- src/sync.rs: who holds the lock.
use ngx_rust.Prelude.{
  ℕ, zero, suc, ◌-◌, ◌<◌, ◌≡◌, ◌≢◌, refl, sym, ap, subst, ◌∙◌, inl, List, [], ◌∷◌, arith, put,
  put-other, put-elim,
}
use ngx_rust.Sync.{Thread, idle, reading, writing, Wish, wlock, advance, System, turn, run}
use ngx_rust.Sync.Weights.{
  sum, reader, writer, sum-put, sum-le, readers-le, Counts, IsFresh, advance-counts,
  advance-IsFresh,
}

-- Every turn is a turn of one of the `n` threads.
abbrev pub AllBelow : ℕ → List (ℕ × Wish) → Type 0
AllBelow n [] = Unit
AllBelow n ((i, wish) ∷ ts) = (i < n) × AllBelow n ts

abbrev IsSound : ℕ → ℕ → System → Type 0
IsSound w n s = Counts w n s × ((i : ℕ) → IsFresh w (s.threads i))

turn-IsSound :
    (w n i : ℕ) (wish : Wish) (s : System)
    → n < wlock w
    → i < n
    → IsSound w n s
    → IsSound w n (turn w (i, wish) s)
unfolding turn
turn-IsSound w n i wish s b h (counts, fresh) = (counts', fresh')
  where
    t : Thread
    t = s.threads i

    t' : Thread
    t' = (advance w wish t s.value).0

    fresh' : (j : ℕ) → IsFresh w (put i t' s.threads j)
    fresh' = put-elim (IsFresh w) i t' s.threads (advance-IsFresh w wish t s.value) fresh

    counts' : Counts w n (turn w (i, wish) s)
    counts' = ground (
      arith,
      counts,
      sum-put reader n i t' s.threads h,
      sum-put writer n i t' s.threads h,
      sum-le reader n i s.threads h,
      sum-le writer n i s.threads h,
      readers-le n s.threads,
      b,
      advance-counts w (sum reader n s.threads - reader t) (sum writer n s.threads - writer t) wish
          t s.value (omega (arith, sum-le reader n i s.threads h, readers-le n s.threads, b))
          (fresh i),
    )

run-IsSound :
    (w n : ℕ) (ts : List (ℕ × Wish)) (s : System)
    → n < wlock w
    → AllBelow n ts
    → IsSound w n s
    → IsSound w n (run w ts s)
unfolding run
run-IsSound w n [] s b a h = h
run-IsSound w n ((i, wish) ∷ ts) s b (i_lt, a) h =
    run-IsSound w n ts (turn w (i, wish) s) b a (turn-IsSound w n i wish s b i_lt h)

-- No thread holds or wants the lock, and the word is zero.
abbrev pub IsInit : System → Type 0
IsInit s = (s.value ≡ 0) × ((i : ℕ) → s.threads i ≡ idle)

sum-idle :
    (g : Thread → ℕ) (n : ℕ) (f : ℕ → Thread) → g idle ≡ 0 → ((i : ℕ) → f i ≡ idle) → sum g n f ≡ 0
sum-idle g zero f e h = refl
sum-idle g (suc n) f e h = omega (arith, sum-idle g n f e h, ap g (h n), e)

init-IsSound : (w n : ℕ) (s : System) → IsInit s → IsSound w n s
init-IsSound w n s (z, h) = (
  inl (sum-idle writer n s.threads refl h, z ∙ sym (sum-idle reader n s.threads refl h)),
  λ i. subst (IsFresh w) (sym (h i)) tt,
)

-- Fewer threads than the writer's mark lock and unlock in any interleaving of their atomic accesses.
-- The word then counts the threads that read while none writes, or it is the mark while exactly one
-- writes and none reads.
pub run-Counts :
    (w n : ℕ) (ts : List (ℕ × Wish)) (s : System)
    → n < wlock w
    → AllBelow n ts
    → IsInit s
    → Counts w n (run w ts s)
run-Counts w n ts s b a h = (run-IsSound w n ts s b a (init-IsSound w n s h)).0

-- Fewer threads than the writer's mark lock and unlock in any interleaving of their atomic accesses.
-- While one holds the lock to write, no other reads or writes.
pub run-excludes :
    (w n : ℕ) (ts : List (ℕ × Wish)) (s : System) (i j : ℕ)
    → n < wlock w
    → AllBelow n ts
    → IsInit s
    → i < n
    → j < n
    → j ≢ i
    → (run w ts s).threads i ≡ writing
    → ((run w ts s).threads j ≢ reading) × ((run w ts s).threads j ≢ writing)
run-excludes w n ts s i j b a h hi hj ne wi = (not_reading, not_writing)
  where
    f : ℕ → Thread
    f = (run w ts s).threads

    counts : Counts w n (run w ts s)
    counts = run-Counts w n ts s b a h

    one : (sum writer n f ≡ 1) × (sum reader n f ≡ 0)
    one = ground (arith, counts, sum-le writer n i f hi, ap writer wi)

    not_reading : f j ≢ reading
    not_reading e = absurd (omega (arith, one.1, sum-le reader n j f hj, ap reader e))

    not_writing : f j ≢ writing
    not_writing e = absurd (
        omega (
          arith,
          one.0,
          sum-put writer n i idle f hi,
          sum-le writer n j (put i idle f) hj,
          ap writer (put-other i idle f j ne),
          ap writer e,
          ap writer wi,
        ))
