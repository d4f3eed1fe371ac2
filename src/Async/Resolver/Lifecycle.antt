-- ===== src/Async/Resolver/Lifecycle.antt =====
-- src/async_/resolver.rs: what holds of a resolution after any sequence of polls, callbacks and
-- drops.
use ngx_rust.Prelude.{
  ℕ, ◌+◌, ◌≤◌, ◌≡◌, ◌≢◌, refl, Bool, true, false, Option, none, some, Result, ok, err, arith,
}
use ngx_rust.Async.Resolver.{
  Error, Completion, pending, ready, taken, canceled_early, World, Request, cancel, drop_owner,
  complete, handler, new, poll, drop_resolution, read, is_ready,
}

abbrev pub flag : Bool → ℕ
flag true = 1
flag false = 0

abbrev pub is_some {ℓ} : {A : Type ℓ} → Option A → Bool
is_some none = false
is_some (some a) = true

abbrev pub is_ready_now : {A : Type 0} → Completion A → Bool
is_ready_now pending = false
is_ready_now (ready r) = true
is_ready_now canceled_early = false
is_ready_now taken = false

pub record IsSound {A : Type 0} (w : World A) : Type 0 where
  -- Every context is freed once, unless nginx freed it with a failed start.
  pub contexts : w.freed + w.forgotten + flag (is_some w.context) ≡ w.begun
  -- The owner is there while nginx may call back, and nginx may call back while it has the context.
  pub owned : w.linked ≡ true → w.owner_alive ≡ true
  pub called : is_some w.context ≡ true → (w.handled ≡ true) × (w.linked ≡ true)
  pub inert : w.handled ≡ true → is_some w.context ≡ true
  -- A sleeping future waits for a callback that is still to come, which will find its waker.
  pub waits : (j : ℕ) → w.asleep ≡ some j → (w.completion ≡ pending) × (w.waker ≡ some j)
  pub expects :
      w.completion ≡ pending
      → w.future_alive ≡ true
      → (is_some w.context ≡ true) × (w.linked ≡ true)
  pub alive : is_some w.asleep ≡ true → w.future_alive ≡ true
  pub pooled : w.completion ≡ pending → w.pool ≡ true
  pub once : w.delivered + flag (is_ready_now w.completion) ≤ 1
  pub unread : w.completion ≡ pending → w.delivered ≡ 0

module _ {A : Type 0} where
  pub data Step : World A → World A → Type 0 where
    polls : {w : World A} (k : ℕ) → w.future_alive ≡ true → Step w (poll k w).1
    calls_back : {w : World A} (c : ℕ) (r : Result Error A) → Step w (handler c r w)
    drops_owner : {w : World A} → w.owner_alive ≡ true → Step w (drop_owner w)
    drops_future : {w : World A} → w.future_alive ≡ true → Step w (drop_resolution w)

  -- From a call of `new`.
  pub data Reach : World A → Type 0 where
    makes : (q : Request A) → Reach (new q).1
    later : {w u : World A} → Reach w → Step w u → Reach u

  Step-IsSound : {w u : World A} → Step w u → IsSound w → IsSound u
  unfolding poll handler complete drop_owner drop_resolution cancel
  Step-IsSound (polls k e) s = ground arith
  Step-IsSound (calls_back c r) s = ground arith
  Step-IsSound (drops_owner e) s = ground arith
  Step-IsSound (drops_future e) s = ground arith

  new-IsSound : (q : Request A) → IsSound (new q).1
  unfolding new handler complete drop_owner cancel
  new-IsSound q = ground arith

  Reach-IsSound : {w : World A} → Reach w → IsSound w
  Reach-IsSound (makes q) = new-IsSound q
  Reach-IsSound (later r st) = Step-IsSound st (Reach-IsSound r)

  read-ok : (r : Result Error A) → read r true ≡ r
  read-ok (ok a) = refl
  read-ok (err e) = refl

  -- No resolution sleeps for ever: while the waker of the future's last poll, which answered
  -- `Pending`, was not called, the resolver has a context whose handler is set, and its callback with
  -- any result calls this very waker, frees the context, and makes the next poll answer with that
  -- result. A context's address is not null.
  pub Reach-woken :
      {w : World A} (r : Result Error A) (j k : ℕ)
      → Reach w
      → w.asleep ≡ some j
      → (c : ℕ) × (w.context ≡ some c)
        × (w.handled ≡ true)
        × (c ≢ 0
            → ((handler c r w).asleep ≡ none)
              × ((handler c r w).freed ≡ w.freed + 1)
              × ((poll k (handler c r w)).0 ≡ is_ready r))
  unfolding handler complete poll
  Reach-woken {w} r j k reached a =
      let s = Reach-IsSound reached in
      at w.context refl (s.expects (s.waits j a).0 (s.alive (ground arith))).0
    where
      at :
          (o : Option ℕ)
          → w.context ≡ o
          → is_some o ≡ true
          → (c : ℕ) × (w.context ≡ some c)
            × (w.handled ≡ true)
            × (c ≢ 0
                → ((handler c r w).asleep ≡ none)
                  × ((handler c r w).freed ≡ w.freed + 1)
                  × ((poll k (handler c r w)).0 ≡ is_ready r))
      at none e i = absurd (cc)
      at (some c) e i =
          let s = Reach-IsSound reached in
          (
            c,
            e,
            ground (arith, s.called),
            λ n. (
              ground (arith, s.called, s.waits j a),
              ground (arith, s.called, s.waits j a),
              ground (arith, s.called, s.waits j a, s.pooled, read-ok r),
            ),
          )

  -- Every context that was started is freed exactly once, by `ngx_resolve_name_done` or by the lookup
  -- that failed, unless the owner still has it; the owner that is dropped has none, and a result is
  -- delivered at most once.
  pub Reach-freed :
      {w : World A}
      → Reach w
      → (w.freed + w.forgotten + flag (is_some w.context) ≡ w.begun)
        × (w.owner_alive ≡ false → w.freed + w.forgotten ≡ w.begun)
        × (w.delivered ≤ 1)
  Reach-freed {w} reached =
      let s = Reach-IsSound reached in
      (s.contexts, λ e. ground (arith, s.contexts, s.called, s.owned), omega (arith, s.once))

  -- A callback for another context than the owned one, or after the context was freed, changes
  -- nothing.
  pub handler-foreign :
      (c : ℕ) (r : Result Error A) (w : World A) → w.context ≢ some c → handler c r w ≡ w
  unfolding handler complete
  handler-foreign c r w n = ground arith
