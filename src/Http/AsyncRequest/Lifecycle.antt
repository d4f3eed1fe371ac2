-- ===== src/Http/AsyncRequest/Lifecycle.antt =====
-- src/http/async_request.rs: what holds of a suspended request after any sequence of phase runs,
-- completions, dispatches of the event, cancellations and changes by nginx.
pub mod Cancel
pub mod Phase
pub mod Reached
use ngx_rust.Prelude.{
  ℕ, ◌+◌, ◌≤◌, ◌≡◌, ◌≢◌, refl, ◌⊎◌, inl, inr, Bool, true, false, ◌&&◌, ◌||◌, not, Option, none,
  some, ◌==◌, if◌then◌else◌, Result, ok, err, arith, if-elim, Bool-cases,
}
use ngx_rust.Event.Posted.{
  Event, Api, IsApi, next, new, post_owned_event, shutdown, cancel_owned_event,
}
use ngx_rust.Http.Request.{Requests, RequestError}
use ngx_rust.Http.Request.Hold.{
  hold_iff, RequestHold, RequestHoldError, hold, cancel, is_some, retain_for_cancellation,
  release_request_reference,
}
use ngx_rust.Http.Request.Continuation.Phase.{Posts, resume_held, resume_held-or_IsUndone}
use ngx_rust.Http.AsyncRequest.{
  State, World, Host, Call, new_state, same_context, drop_context, cancel_stale, remove_context,
  resume_with, release_retained, removed_at, finish_after, taken_at, not_started, held_at, spawn_at,
  insert_at, allocate_at, dispatch_phase, continue_phase, start_phase, handler, complete,
  async_phase_continuation,
}

abbrev pub flag : Bool → ℕ
flag true = 1
flag false = 0

-- What the state, the event and the counters of a continuation have in every reachable world.
pub record IsSound {Output : Type 0} (w : World Output) : Type 0 where
  -- Only a registered context is active.
  pub owned : w.state.active ≡ true → w.registered ≡ true
  -- A reference is kept only while the request waits, and an output only while it is active.
  pub suspended : is_some w.state.held ≡ true → w.state.phase_posted ≡ false
  pub waits : is_some w.state.held ≡ true → w.detached ≡ false → w.state.active ≡ true
  pub gone : w.detached ≡ true → w.state.active ≡ false
  pub holds :
      w.state.active ≡ true
      → w.state.phase_posted ≡ false
      → w.abandoned ≡ false
      → is_some w.state.held ≡ true
  pub has_output : is_some w.state.output ≡ true → (w.state.active ≡ true) × (w.running ≡ false)
  pub resumed : w.state.active ≡ true → w.state.phase_posted ≡ true → is_some w.state.output ≡ true
  -- A posted event has something to do, and an output waits for its event or for the phase.
  pub stopped : w.event.stopped ≡ true → (w.state.active ≡ false) × (w.event.posted ≡ false)
  pub posted : w.event.posted ≡ true → w.state.active ≡ true → is_some w.state.output ≡ true
  pub heard :
      is_some w.state.output ≡ true
      → w.state.phase_posted ≡ false
      → w.refused ≡ false
      → w.event.posted ≡ true
  -- Each completion has its start, and each call of `finish` its completion.
  pub outputs : w.finished + flag (is_some w.state.output) ≤ w.completed
  pub starts : w.completed + flag w.running ≤ w.started

module _ {Output : Type 0} (h : Host Output) where
  pub data Step : World Output → World Output → Type 0 where
    phase_runs : {w : World Output} (call : Call) → Step w (handler h call w).1
    completes : {w : World Output} (out : Output) → w.running ≡ true → Step w (complete h out w)
    dispatches :
        {w : World Output} (check_fails : Bool)
        → w.event.posted ≡ true
        → Step w (
            async_phase_continuation h check_fails
              (record w { event = record w.event { posted = false } }))
    redirects : {w : World Output} → Step w (record w { context_slot = 0 })
    cancels : {w : World Output} (raw : ℕ) → Step w (cancel_stale h raw w).1
    torn_down : {w : World Output} → w.registered ≡ true → Step w (drop_context h w)
    changes :
        {w : World Output} (r : Requests) (p : Posts)
        → Step w (record w { requests = r; posts = p })

  pub data Reach (w : World Output) : World Output → Type 0 where
    here : Reach w w
    later : {v u : World Output} → Reach w v → Step v u → Reach w u
