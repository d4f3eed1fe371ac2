-- ===== src/Http/AsyncRequest/Lifecycle/Cancel.antt =====
-- src/http/async_request.rs: dropping a context, completing the task, and dispatching the event keep
-- the invariant.
use ngx_rust.Prelude.{
  ◌&&◌, ◌||◌, not, ℕ, ◌≡◌, ◌≢◌, ◌⊎◌, Bool, true, false, Option, none, some, ◌==◌, Result, ok, err,
  arith, if-elim,
}
use ngx_rust.Event.Posted.{IsApi, next, post_owned_event, shutdown, cancel_owned_event}
use ngx_rust.Http.Request.{Requests, RequestError}
use ngx_rust.Http.Request.Hold.{
  RequestHold, cancel, is_some, retain_for_cancellation, release_request_reference,
}
use ngx_rust.Http.Request.Continuation.Phase.{Posts, resume_held, resume_held-or_IsUndone}
use ngx_rust.Http.AsyncRequest.{
  World, Host, drop_context, cancel_stale, stale_at, held_request, same_context, remove_context,
  release_retained, Removal, removable, without_pool, without_cleanup, cleaned_at, has_pool,
  removed_at, unstale_at, complete, async_phase_continuation,
}
use ngx_rust.Http.AsyncRequest.Lifecycle.{IsSound}

module _ {Output : Type 0} (h : Host Output) (api : IsApi h.posted) where
  pub drop-IsSound : (w : World Output) → IsSound w → IsSound (drop_context h w)
  unfolding drop_context cancel shutdown cancel_owned_event
  drop-IsSound w s = ground (
    arith,
    api.deletes (record w.event { stopped = true }),
    api.keeps_stopped (record w.event { stopped = true }),
  )

  pub complete-IsSound :
      (out : Output) (w : World Output) → w.running ≡ true → IsSound w → IsSound (complete h out w)
  unfolding complete post_owned_event
  complete-IsSound out w r s = ground (arith, api.posts next w.event)

  -- A failure to resume has put the hold back.
  pub resume-slot :
      (w : World Output)
      → is_some w.state.held ≡ true
      → let a =
          resume_held h.native h.posting w.state.held w.state.posted_request w.requests w.posts in
        ((a.outcome ≡ ok tt) × (a.slot ≡ none)) ⊎ ((a.outcome ≢ ok tt) × (is_some a.slot ≡ true))
  resume-slot w some_held = at w.state.held some_held
    where
      at :
          (slot : Option RequestHold)
          → is_some slot ≡ true
          → let a = resume_held h.native h.posting slot w.state.posted_request w.requests w.posts in
            ((a.outcome ≡ ok tt) × (a.slot ≡ none))
            ⊎ ((a.outcome ≢ ok tt) × (is_some a.slot ≡ true))
      at none e = absurd (cc)
      at (some hd) e = ground (
        arith,
        resume_held-or_IsUndone h.native h.posting hd w.state.posted_request w.requests w.posts 0,
      )

  -- nginx may change the requests, its queues and the context slot.
  pub frame-IsSound :
      (w : World Output) (r : Requests) (p : Posts) (c : ℕ)
      → IsSound w
      → IsSound (record w { requests = r; posts = p; context_slot = c })
  frame-IsSound w r p c s = ground arith

  pub release-IsSound :
      (kept : Option (ℕ × ℕ)) (w : World Output) → IsSound w → IsSound (release_retained h kept w)
  release-IsSound none w s = s
  release-IsSound (some (raw, main)) w s =
      frame-IsSound w (release_request_reference h.native raw main w.requests) w.posts
        w.context_slot s

  pub stale-IsSound : (raw : ℕ) (w : World Output) → IsSound w → IsSound (cancel_stale h raw w).1
  unfolding cancel_stale
  stale-IsSound raw w s =
      if-elim (λ (x : Bool × World Output). IsSound x.1)
        (w.registered && not (same_context w.state.context w.context_slot))
        (stale_at h (retain_for_cancellation h.native raw w.requests) w) (true, w)
        (λ e. at (retain_for_cancellation h.native raw w.requests)) (λ e. s)
    where
      at : (r : Result RequestError (Option (ℕ × ℕ) × Requests)) → IsSound (stale_at h r w).1
      at (err e) = s
      at (ok (kept, r)) =
          let w' = record w { requests = r } in
          release-IsSound kept (drop_context h w')
            (drop-IsSound w' (frame-IsSound w r w.posts w.context_slot s))

  -- A dispatch that does not resume the phase is marked, so the event need not stay posted.
  pub dispatch-IsSound :
      (check_fails : Bool) (w : World Output)
      → w.event.posted ≡ true
      → IsSound w
      → IsSound (
          async_phase_continuation h check_fails
            (record w { event = record w.event { posted = false } }))
  unfolding async_phase_continuation
  dispatch-IsSound b w p s =
      let taken = record w { event = record w.event { posted = false } } in
      let marked = record taken { refused = true } in
      let t : IsSound marked = ground arith in
      ground (arith, resume-slot taken, stale-IsSound (held_request w.state.held) marked t)

  cleaned-IsSound :
      (m : Removal) (kept : Option (ℕ × ℕ)) (w : World Output)
      → IsSound w
      → IsSound (cleaned_at h m kept w).1
  cleaned-IsSound removable kept w s =
      let w' = record w { context_slot = 0 } in
      release-IsSound kept (drop_context h w')
        (drop-IsSound w' (frame-IsSound w w.requests w.posts 0 s))
  cleaned-IsSound without_pool kept w s = release-IsSound kept w s
  cleaned-IsSound without_cleanup kept w s = release-IsSound kept w s

  removed-IsSound :
      (m : Removal) (r : Result RequestError (Option (ℕ × ℕ) × Requests)) (w : World Output)
      → IsSound w
      → IsSound (removed_at h m r w).1
  removed-IsSound m (err e) w s = s
  removed-IsSound m (ok (kept, r)) w s =
      cleaned-IsSound m kept (record w { requests = r })
        (frame-IsSound w r w.posts w.context_slot s)

  unstale-IsSound :
      (m : Removal) (raw : ℕ) (r : Bool × World Output)
      → IsSound r.1
      → IsSound (unstale_at h m raw r).1
  unstale-IsSound m raw (false, w) s = s
  unstale-IsSound m raw (true, w) s =
      if-elim (λ (x : Bool × World Output). IsSound x.1) (not (has_pool m) || (w.context_slot == 0))
        (false, w) (removed_at h m (retain_for_cancellation h.native raw w.requests) w) (λ e. s)
        (λ e. removed-IsSound m (retain_for_cancellation h.native raw w.requests) w s)

  pub remove-IsSound :
      (m : Removal) (raw : ℕ) (w : World Output) → IsSound w → IsSound (remove_context h m raw w).1
  unfolding remove_context
  remove-IsSound m raw w s = unstale-IsSound m raw (cancel_stale h raw w) (stale-IsSound raw w s)
