-- ===== src/Http/AsyncRequest/Lifecycle/Phase.antt =====
-- src/http/async_request.rs: a run of the phase handler keeps the invariant, whichever way it takes.
use ngx_rust.Prelude.{
  ℕ, ◌+◌, ◌≤◌, ◌≡◌, refl, ◌∙◌, inl, inr, Bool, true, false, ◌||◌, not, Option, none, some, ◌==◌,
  Result, ok, err, arith, if-elim, Bool-cases,
}
use ngx_rust.Event.Posted.{IsApi, new}
use ngx_rust.Http.Request.{Requests, RequestError}
use ngx_rust.Http.Request.Hold.{
  hold_iff, RequestHold, RequestHoldError, hold, is_some, retain_for_cancellation,
}
use ngx_rust.Http.AsyncRequest.{
  World, Host, Call, drop_context, cancel_stale, current_at, Removal, StartAction, leaves_context,
  resets_slot, removes_context, remove_context, removed_at, unstale_at, start_at, started,
  inserted_context, finish_after, taken_at, not_started, held_at, spawn_at, insert_at, allocate_at,
  continue_phase, start_phase, handler,
}
use ngx_rust.Http.AsyncRequest.Lifecycle.{flag, IsSound}
use ngx_rust.Http.AsyncRequest.Lifecycle.Cancel.{stale-IsSound, frame-IsSound, remove-IsSound}

module _ {Output : Type 0} (h : Host Output) (api : IsApi h.posted) where
  finish-IsSound :
      (out : Output) (r : Bool × World Output)
      → IsSound r.1
      → r.1.finished + 1 + flag (is_some r.1.state.output) ≤ r.1.completed
      → IsSound (finish_after h out r).1
  finish-IsSound out (false, w) s n = s
  finish-IsSound out (true, w) s n = ground arith

  -- Removing a context changes no counter, and an output only to none.
  abbrev Keeps : World Output → World Output → Type 0
  Keeps w w' =
      (w'.finished ≡ w.finished)
      × (w'.completed ≡ w.completed)
      × (w.state.output ≡ none → w'.state.output ≡ none)
      × (w'.state.phase_posted ≡ w.state.phase_posted)

  stale-Keeps : (raw : ℕ) (w : World Output) → Keeps w (cancel_stale h raw w).1
  unfolding cancel_stale drop_context
  stale-Keeps raw w = ground arith

  removed-Keeps :
      (m : Removal) (r : Result RequestError (Option (ℕ × ℕ) × Requests)) (w : World Output)
      → Keeps w (removed_at h m r w).1
  unfolding drop_context
  removed-Keeps m r w = ground arith

  unstale-Keeps :
      (m : Removal) (raw : ℕ) (r : Bool × World Output) → Keeps r.1 (unstale_at h m raw r).1
  unstale-Keeps m raw (false, w) = (refl, refl, λ e. e, refl)
  unstale-Keeps m raw (true, w) =
      ground (arith, removed-Keeps m (retain_for_cancellation h.native raw w.requests) w)

  remove-Keeps : (m : Removal) (raw : ℕ) (w : World Output) → Keeps w (remove_context h m raw w).1
  unfolding remove_context
  remove-Keeps m raw w =
      ground (arith, stale-Keeps raw w, unstale-Keeps m raw (cancel_stale h raw w))

  taken-IsSound :
      (call : Call) (o : Option Output) (w : World Output)
      → w.state.output ≡ o
      → w.state.phase_posted ≡ true
      → IsSound w
      → IsSound (taken_at h call o w).1
  taken-IsSound call none w e p s = s
  taken-IsSound call (some out) w e p s =
      let idle = record w.state { active = false; task = false; output = none } in
      let w' : World Output = record w { state = idle } in
      let s' : IsSound w' = ground arith in
      finish-IsSound out (remove_context h call.removal call.request w')
        (remove-IsSound h api call.removal call.request w' s')
        (ground (arith, remove-Keeps call.removal call.request w'))

  continue-IsSound :
      (call : Call) (w : World Output) → IsSound w → IsSound (continue_phase h call w).1
  unfolding continue_phase
  continue-IsSound call w s = ground (arith, taken-IsSound call w.state.output w)

  not_started-IsSound :
      (call : Call) (w : World Output) → IsSound w → IsSound (not_started h call w).1
  not_started-IsSound call w s = remove-IsSound h api call.removal call.request w s

  held-IsSound :
      (call : Call) (r : Result RequestHoldError (Requests × Option RequestHold)) (w : World Output)
      → hold h.native w.requests call.request w.state.held ≡ r
      → (w.detached ≡ false → w.state.active ≡ true)
      → w.state.phase_posted ≡ false
      → IsSound w
      → IsSound (held_at h call r w).1
  unfolding hold
  held-IsSound call (err e) w q a p s = not_started-IsSound call w s
  held-IsSound call (ok (r, slot)) w q a p s =
      ground (arith, hold_iff h.native w.requests call.request w.state.held r slot)

  spawn-IsSound :
      (call : Call) (w : World Output)
      → (w.detached ≡ false → w.state.active ≡ true)
      → w.state.phase_posted ≡ false
      → w.state.output ≡ none
      → IsSound w
      → IsSound (spawn_at h call w).1
  spawn-IsSound call w a p o s = elim (Bool-cases call.spawn_fails) [
    | inl e ↦ rw e (not_started-IsSound call w s)
    | inr e ↦
        let w' : World Output = record w {
          running = true;
          started = w.started + 1;
          state = record w.state { task = true };
        } in
        rw e (
          held-IsSound call (hold h.native w'.requests call.request w'.state.held) w' refl a p
            (ground arith))
  ]

  -- While `H::start` runs, the continuation has no reference and no output.
  abbrev IsStarting : World Output → Type 0
  IsStarting w = IsSound w × (w.state.phase_posted ≡ false) × (w.state.output ≡ none)

  start_at-IsStarting :
      (a : StartAction) (raw : ℕ) (w : World Output)
      → IsStarting w
      → IsStarting (start_at h a raw w)
  start_at-IsStarting leaves_context raw w s = s
  start_at-IsStarting resets_slot raw w s =
      (frame-IsSound h api w w.requests w.posts 0 s.0, s.1, s.2)
  start_at-IsStarting (removes_context m) raw w s =
      let kept = remove-Keeps m raw w in
      (remove-IsSound h api m raw w s.0, kept.3 ∙ s.1, kept.2 s.2)

  started-IsSound :
      (call : Call) (w : World Output)
      → IsStarting w
      → IsSound (spawn_at h call (started h call w)).1
  started-IsSound call w s =
      let asked = record w { requests = h.start w.requests } in
      let w' = start_at h call.start call.request asked in
      let framed = frame-IsSound h api w (h.start w.requests) w.posts w.context_slot s.0 in
      let (sound, p, o) = start_at-IsStarting call.start call.request asked (framed, s.1, s.2) in
      spawn-IsSound call (record w' { detached = not w'.state.active }) (λ e. ground arith) p o
        (ground arith)

  insert-IsSound :
      (call : Call) (posted : ℕ) (o : Option ℕ) (w : World Output)
      → IsSound w
      → IsSound (insert_at h call posted o w).1
  unfolding new
  insert-IsSound call posted none w s = s
  insert-IsSound call posted (some c) w s =
      started-IsSound call (inserted_context h posted c w) (ground arith, refl, refl)

  start-IsSound : (call : Call) (w : World Output) → IsSound w → IsSound (start_phase h call w).1
  unfolding start_phase
  start-IsSound call w s =
      if-elim (λ (x : ℕ × World Output). IsSound x.1) (call.log_fails || call.pool_fails)
        (h.error_status, w) (allocate_at h call call.posted_request w) (λ e. s)
        (λ e. allocated call.posted_request)
    where
      allocated : (o : Option ℕ) → IsSound (allocate_at h call o w).1
      allocated none = s
      allocated (some posted) = ground (arith, insert-IsSound call posted call.inserted w)

  current-IsSound :
      (call : Call) (r : Bool × World Output) → IsSound r.1 → IsSound (current_at h call r).1
  current-IsSound call (false, v) t = t
  current-IsSound call (true, v) t =
      if-elim (λ (x : ℕ × World Output). IsSound x.1) (v.context_slot == 0) (start_phase h call v)
        (continue_phase h call v) (λ i. start-IsSound call v t) (λ i. continue-IsSound call v t)

  pub handler-IsSound : (call : Call) (w : World Output) → IsSound w → IsSound (handler h call w).1
  unfolding handler
  handler-IsSound call w s =
      if-elim (λ (x : ℕ × World Output). IsSound x.1) call.context_fails (h.error_status, w)
        (current_at h call (cancel_stale h call.request w)) (λ e. s)
        (λ e.
          current-IsSound call (cancel_stale h call.request w)
            (stale-IsSound h api call.request w s))
