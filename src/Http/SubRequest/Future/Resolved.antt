-- ===== src/Http/SubRequest/Future/Resolved.antt =====
-- src/http/subrequest.rs: the future of a subrequest is always resolved, and once.
use ngx_rust.Prelude.{ℕ, ◌+◌, ◌≤◌, ◌≡◌, Bool, true, false, Option, none, some, ok, err, arith}
use ngx_rust.Http.SubRequest.{canceled}
use ngx_rust.Http.SubRequest.Future.{
  World, is_ready, panics, fresh, has_output, complete, finish, drop_guard, poll, drop_future, Run,
  run_handler, destroy_pool,
}

abbrev pub flag : Bool → ℕ
flag true = 1
flag false = 0

abbrev pub is_some {ℓ} : {A : Type ℓ} → Option A → Bool
is_some none = false
is_some (some a) = true

pub record IsSound {T : Type 0} (w : World T) : Type 0 where
  -- A sleeping future has its waker registered, and no output yet.
  pub sleeps :
      (j : ℕ)
      → w.asleep ≡ some j
      → (w.state.waker ≡ some j)
        × (has_output w.state.output ≡ false)
        × (w.state.consumed ≡ false)
        × (w.state.canceled ≡ false)
        × (w.future_alive ≡ true)
  -- A future that waits has a handler that will resolve it.
  pub expects :
      w.state.canceled ≡ false
      → w.state.consumed ≡ false
      → has_output w.state.output ≡ false
      → w.handler ≡ true
  pub gone : w.state.canceled ≡ true → w.future_alive ≡ false
  pub once : w.runs + flag w.handler ≤ 1
  pub answered : w.delivered ≡ flag w.state.consumed

module _ {T : Type 0} where
  pub data Step : World T → World T → Type 0 where
    polls : {w : World T} (k : ℕ) → w.future_alive ≡ true → Step w (poll k w).1
    drops : {w : World T} → w.future_alive ≡ true → Step w (drop_future w)
    runs_handler : {w : World T} (r : Run T) → Step w (run_handler r w)
    destroys : {w : World T} → Step w (destroy_pool w)

  pub data Reach : World T → Type 0 where
    begins : Reach fresh
    later : {w u : World T} → Reach w → Step w u → Reach u

  Step-IsSound : {w u : World T} → Step w u → IsSound w → IsSound u
  unfolding poll drop_future run_handler destroy_pool drop_guard finish complete
  Step-IsSound (polls k e) s = ground arith
  Step-IsSound (drops e) s = ground arith
  Step-IsSound (runs_handler r) s = ground arith
  Step-IsSound destroys s = ground arith

  Reach-IsSound : {w : World T} → Reach w → IsSound w
  Reach-IsSound begins = ground arith
  Reach-IsSound (later r st) = Step-IsSound st (Reach-IsSound r)

  -- No future of a subrequest sleeps for ever: while the waker of its last poll, which answered
  -- `Pending`, was not called, the handler is still there, and whether nginx calls it or destroys the
  -- pool first, this very waker is called, or the handler has dropped the future, and the next poll
  -- answers: with the handler's output, if the handler ran, or with the cancellation.
  pub Reach-resolved :
      {w : World T} (r : Run T) (j k : ℕ)
      → Reach w
      → w.asleep ≡ some j
      → (w.handler ≡ true)
        × ((run_handler r w).asleep ≡ none)
        × ((destroy_pool w).asleep ≡ none)
        × (r.enters ≡ true
            → r.drops_future ≡ false
            → (poll k (run_handler r w)).0 ≡ is_ready (ok r.output))
        × (r.enters ≡ false → (poll k (run_handler r w)).0 ≡ is_ready (err canceled))
        × ((poll k (destroy_pool w)).0 ≡ is_ready (err canceled))
  unfolding poll drop_future run_handler destroy_pool drop_guard finish complete
  Reach-resolved {w} r j k reached a =
      let s = Reach-IsSound reached in
      let (i, o, c, d, l) = s.sleeps j a in
      let h : w.handler ≡ true = s.expects d c o in
      (h, ground arith, ground arith, λ e n. ground arith, λ e. ground arith, ground arith)

  -- The handler runs at most once, and the future answers at most once; a poll panics only after it
  -- has answered.
  pub Reach-once :
      {w : World T} (k : ℕ)
      → Reach w
      → (w.runs ≤ 1) × (w.delivered ≤ 1) × ((poll k w).0 ≡ panics → w.delivered ≡ 1)
  unfolding poll
  Reach-once {w} k reached =
      let s = Reach-IsSound reached in
      (omega (arith, s.once), ground (arith, s.answered), λ e. ground (arith, s.answered))
