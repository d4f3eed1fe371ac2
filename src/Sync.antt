-- ===== src/Sync.antt =====
-- src/sync.rs: the reader-writer lock over one atomic word. A thread is a state of its own, which
-- makes one atomic access a turn; what it wants when it holds nothing is part of the turn. The loops
-- of `lock_shared` and `lock_exclusive` try again until they succeed, which is further turns.
mod Tests
pub mod Weights
pub mod Exclusion
use ngx_rust.Prelude.{ℕ, ◌+◌, ◌-◌, ◌^◌, Bool, true, false, List, [], ◌∷◌, ◌==◌, if◌then◌else◌, put}

-- `NGX_RWLOCK_WLOCK`, the largest word of `w` bits.
abbrev pub wlock : ℕ → ℕ
wlock w = 2 ^ w - 1

pub data Thread : Type 0 where
  idle reading writing : Thread
  loaded : ℕ → Thread

pub data Wish : Type 0 where
  shared exclusive : Wish

-- `try_lock_shared`: the load, with its test of the writer's mark.
unfoldable pub load_shared : ℕ → ℕ → Thread × ℕ
load_shared w value = (if value == wlock w then idle else loaded value, value)

-- The exchange that follows: one more reader, or no lock.
unfoldable pub exchange_shared : ℕ → ℕ → Thread × ℕ
exchange_shared seen value = if value == seen then (reading, seen + 1) else (idle, value)

unfoldable pub unlock_shared : ℕ → Thread × ℕ
unlock_shared value = (idle, value - 1)

unfoldable pub try_lock_exclusive : ℕ → ℕ → Thread × ℕ
try_lock_exclusive w value = if value == 0 then (writing, wlock w) else (idle, value)

unfoldable pub unlock_exclusive : ℕ → Thread × ℕ
unlock_exclusive value = (idle, 0)

abbrev pub begin : ℕ → Wish → ℕ → Thread × ℕ
begin w shared value = load_shared w value
begin w exclusive value = try_lock_exclusive w value

abbrev pub advance : ℕ → Wish → Thread → ℕ → Thread × ℕ
advance w wish idle value = begin w wish value
advance w wish (loaded seen) value = exchange_shared seen value
advance w wish reading value = unlock_shared value
advance w wish writing value = unlock_exclusive value

pub record System : Type 0 where
  pub value : ℕ
  pub threads : ℕ → Thread

unfoldable pub turn : ℕ → ℕ × Wish → System → System
turn w (i, wish) s =
    let (t, v) = advance w wish (s.threads i) s.value in
    record { value = v; threads = put i t s.threads }

unfoldable pub run : ℕ → List (ℕ × Wish) → System → System
run w [] s = s
run w (t ∷ ts) s = run w ts (turn w t s)
