-- ===== src/Sync/Tests.antt =====
-- Three threads: two read at once, then one of them comes to write.
use ngx_rust.Prelude.{ℕ, ◌≢◌, refl, List, [], ◌∷◌, arith, put}
use ngx_rust.Sync.{
  System, idle, reading, writing, Wish, shared, exclusive, run, turn, load_shared, exchange_shared,
  unlock_shared, try_lock_exclusive,
}
use ngx_rust.Sync.Exclusion.{run-excludes}

abbrev unlocked : System
unlocked = record { value = 0; threads = λ i. idle }

abbrev order : List (ℕ × Wish)
order =
    (0, shared)
    ∷ (1, shared)
    ∷ (0, shared)
    ∷ (1, shared)
    ∷ (2, exclusive)
    ∷ (0, shared)
    ∷ (2, exclusive)
    ∷ []

abbrev writing_order : List (ℕ × Wish)
writing_order = (0, shared) ∷ (0, shared) ∷ (0, shared) ∷ (2, exclusive) ∷ (1, shared) ∷ []

run-excludes_example :
    ((run 8 writing_order unlocked).threads 1 ≢ reading)
    × ((run 8 writing_order unlocked).threads 1 ≢ writing)
unfolding run turn load_shared exchange_shared unlock_shared try_lock_exclusive put
run-excludes_example =
    run-excludes 8 3 writing_order unlocked 2 1 (omega arith)
      (omega arith, (omega arith, (omega arith, (omega arith, (omega arith, tt)))))
      (refl, λ i. refl) (omega arith) (omega arith) (λ e. absurd (omega arith)) refl
