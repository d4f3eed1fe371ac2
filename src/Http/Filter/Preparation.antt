-- ===== src/Http/Filter/Preparation.antt =====
-- src/http/filter.rs: the marker of a prepared slot, and the cleanups of a pool that own markers.
use ngx_rust.Prelude.{
  ℕ, ◌≡◌, refl, Bool, false, ◌&&◌, ◌||◌, Option, none, List, [], ◌∷◌, ok, err, if◌then◌else◌, ◌==◌,
  put, arith,
}
use ngx_rust.Http.Filter.{
  FilterPreparation, World, Host, drop_preparation, prepare, same_marker, set_preparation,
  already_prepared,
}

-- nginx runs the cleanups of a pool that it destroys.
unfoldable pub run_cleanups : List FilterPreparation → World → World
run_cleanups [] w = w
run_cleanups (p ∷ ps) w = run_cleanups ps (drop_preparation p w)

unfoldable pub destroy_pool : ℕ → World → World
destroy_pool pool w = run_cleanups (w.cleanups pool) w

-- One of the cleanups owns the marker of a module's slot.
unfoldable pub owns : List FilterPreparation → ℕ → Option ℕ → Bool
owns [] m marker = false
owns (p ∷ ps) m marker = (p.module_of == m && same_marker marker p.marker) || owns ps m marker

run_cleanups_lem :
    (ps : List FilterPreparation) (w : World) (m : ℕ)
    → ((run_cleanups ps w).slots m ≡ (
        if owns ps m (w.slots m).preparation then set_preparation none (w.slots m) else w.slots m))
      × ((run_cleanups ps w).tops ≡ w.tops)
unfolding run_cleanups owns drop_preparation put
run_cleanups_lem [] w m = (refl, refl)
run_cleanups_lem (p ∷ ps) w m =
    ground (arith, run_cleanups_lem ps (drop_preparation p w) m, owns-none ps m)
  where
    owns-none : (qs : List FilterPreparation) (k : ℕ) → owns qs k none ≡ false
    owns-none [] k = refl
    owns-none (q ∷ qs) k = ground (arith, owns-none qs k)

module _ (host : Host) where
  -- Destroying a pool clears the marker of exactly the slots whose preparation the pool owns, so
  -- that an outdated preparation does not clear a newer one, and touches no filter.
  pub destroy_pool-clears :
      (pool m : ℕ) (w : World)
      → ((destroy_pool pool w).slots m ≡ (
          if owns (w.cleanups pool) m (w.slots m).preparation
          then set_preparation none (w.slots m)
          else w.slots m))
        × ((destroy_pool pool w).tops ≡ w.tops)
  unfolding destroy_pool
  destroy_pool-clears pool m w = run_cleanups_lem (w.cleanups pool) w m

  -- A preparation that succeeds found the slot free; a second one is refused; and once the pool is
  -- destroyed the slot is as it was before.
  pub prepare-destroy :
      (m pool : ℕ) (w w' : World)
      → prepare host m pool w ≡ (ok tt, w')
      → (prepare host m pool w' ≡ (err already_prepared, w'))
        × ((destroy_pool pool w').slots m ≡ w.slots m)
  unfolding prepare put owns destroy_pool
  prepare-destroy m pool w w' h = ground (arith, run_cleanups_lem (w'.cleanups pool) w' m)
