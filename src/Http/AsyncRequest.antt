-- ===== src/Http/AsyncRequest.antt =====
-- src/http/async_request.rs: a phase handler that suspends its request while a task produces the
-- output, and continues it by a posted event.
--
-- A world has one request and the continuation that its module's context owns: the state of the
-- continuation, its event, and the slot of the context. A context that is no longer in its slot is
-- dropped before a new one is made, so an older continuation is inactive. The counters and the
-- three marks at the end of the world are not in the source: they say what happened. What
-- `H::start` does to the request, its own context included, is an argument; only a redirect inside
-- it that runs this handler again is left out.
pub mod Lifecycle
mod Tests
use ngx_rust.Prelude.{
  ℕ, ◌+◌, Bool, true, false, ◌&&◌, ◌||◌, not, Option, none, some, ◌==◌, if◌then◌else◌, Result, ok,
  err,
}
use ngx_rust.Event.Posted.{Event, Api, next, new, post_owned_event, shutdown}
use ngx_rust.Http.Request.{Native, Requests, RequestError}
use ngx_rust.Http.Request.Hold.{
  RequestHold, RequestHoldError, hold, cancel, is_some, retain_for_cancellation,
  release_request_reference,
}
use ngx_rust.Http.Request.Continuation.{Fault}
use ngx_rust.Http.Request.Continuation.Phase.{Posts, Posting, Attempt, resume_held}

-- `AsyncContinuationState<H>`; of the task, whether the handle is there.
pub record State (Output : Type 0) : Type 0 where
  pub task : Bool
  pub output : Option Output
  pub held : Option RequestHold
  pub posted_request : ℕ
  pub context : Option ℕ
  pub active : Bool
  pub phase_posted : Bool

-- `running` is whether the task may still complete, `registered` whether the context is. A
-- continuation is `abandoned` until its start has succeeded, and `detached` when the handler's own
-- `start` has dropped its context.
pub record World (Output : Type 0) : Type 0 where
  pub requests : Requests
  pub posts : Posts
  pub context_slot : ℕ
  pub registered : Bool
  pub state : State Output
  pub event : Event
  pub running : Bool
  pub started : ℕ
  pub completed : ℕ
  pub finished : ℕ
  pub refused : Bool
  pub abandoned : Bool
  pub detached : Bool

-- nginx, the two methods of the handler, and the statuses.
pub record Host (Output : Type 0) : Type 0 where
  pub native : Native
  pub posting : Posting
  pub posted : Api
  pub error_status : ℕ
  pub done_status : ℕ
  pub start : Requests → Requests
  pub finish : Output → Requests → ℕ × Requests

-- What `remove_module_context` finds of the context in its slot: that it is aligned and has its
-- cleanup, that the pool or the slot cannot be had, or that the cleanup is missing.
pub data Removal : Type 0 where
  removable without_pool without_cleanup : Removal

-- What `H::start` does to the context that was just made: it leaves it, it removes it, or it lets
-- nginx reset the slots.
pub data StartAction : Type 0 where
  leaves_context resets_slot : StartAction
  removes_context : Removal → StartAction

-- What one call of the phase handler meets: the request, whether its context slot, its log and its
-- pool can be had, the memory that is there, what the handler's `start` does, and whether the task
-- is spawned.
pub record Call : Type 0 where
  pub request : ℕ
  pub context_fails : Bool
  pub pinned_fails : Bool
  pub log_fails : Bool
  pub pool_fails : Bool
  pub posted_request : Option ℕ
  pub continuation_fails : Bool
  pub inserted : Option ℕ
  pub start : StartAction
  pub spawn_fails : Bool
  pub removal : Removal

pub data HttpPhase : Type 0 where
  post_read server_rewrite rewrite preaccess access pre_content content log_phase : HttpPhase

pub data AsyncHandlerRegistrationError : Type 0 where
  content_phase log_phase_error allocation : AsyncHandlerRegistrationError

unfoldable pub validate_async_phase : HttpPhase → Result AsyncHandlerRegistrationError (Unit {0})
validate_async_phase content = err content_phase
validate_async_phase log_phase = err log_phase_error
validate_async_phase p = ok tt

abbrev pub new_state : {Output : Type 0} → ℕ → State Output
new_state posted = record {
  task = false;
  output = none;
  held = none;
  posted_request = posted;
  context = none;
  active = true;
  phase_posted = false;
}

abbrev pub same_context : Option ℕ → ℕ → Bool
same_context none p = false
same_context (some c) p = c == p

abbrev pub has_pool : Removal → Bool
has_pool removable = true
has_pool without_pool = false
has_pool without_cleanup = true

abbrev pub held_request : Option RequestHold → ℕ
held_request none = 0
held_request (some hd) = hd.request

module _ {Output : Type 0} (h : Host Output) where
  -- `impl Drop for AsyncHandlerContext`.
  unfoldable pub drop_context : World Output → World Output
  drop_context w =
      let (_, slot, r) = cancel h.native w.state.held w.requests in
      record w {
        registered = false;
        state = record w.state { active = false; task = false; output = none; held = slot };
        event = (shutdown h.posted w.event).1;
        requests = r;
      }

  abbrev pub release_retained : Option (ℕ × ℕ) → World Output → World Output
  release_retained none w = w
  release_retained (some (raw, main)) w = record w {
    requests = release_request_reference h.native raw main w.requests;
  }

  abbrev is_last : Option (ℕ × ℕ) → World Output → Bool
  is_last none w = false
  is_last (some (raw, main)) w = (w.requests main).count == 1

  abbrev pub stale_at :
      Result RequestError (Option (ℕ × ℕ) × Requests) → World Output → Bool × World Output
  stale_at (err e) w = (false, w)
  stale_at (ok (kept, r)) w =
      let w' = drop_context (record w { requests = r }) in
      (not (is_last kept w'), release_retained kept w')

  -- `cancel_stale_request_contexts`, for this module: whether the request may still be used. Without
  -- a stale context the reference that it retains is released again at once.
  unfoldable pub cancel_stale : ℕ → World Output → Bool × World Output
  cancel_stale raw w =
      if w.registered && not (same_context w.state.context w.context_slot)
      then stale_at (retain_for_cancellation h.native raw w.requests) w
      else (true, w)

  abbrev pub cleaned_at : Removal → Option (ℕ × ℕ) → World Output → Bool × World Output
  cleaned_at removable kept w =
      (true, release_retained kept (drop_context (record w { context_slot = 0 })))
  cleaned_at without_pool kept w = (false, release_retained kept w)
  cleaned_at without_cleanup kept w = (false, release_retained kept w)

  abbrev pub removed_at :
      Removal → Result RequestError (Option (ℕ × ℕ) × Requests) → World Output → Bool × World Output
  removed_at m (err e) w = (false, w)
  removed_at m (ok (kept, r)) w = cleaned_at m kept (record w { requests = r })

  abbrev pub unstale_at : Removal → ℕ → Bool × World Output → Bool × World Output
  unstale_at m raw (false, w) = (false, w)
  unstale_at m raw (true, w) =
      if not (has_pool m) || (w.context_slot == 0)
      then (false, w)
      else removed_at m (retain_for_cancellation h.native raw w.requests) w

  -- `remove_module_context`, and whether it answers `Ok(true)`: a stale context is cancelled first,
  -- and a reference on the request is retained while the context is dropped.
  unfoldable pub remove_context : Removal → ℕ → World Output → Bool × World Output
  remove_context m raw w = unstale_at m raw (cancel_stale raw w)

  abbrev pub finish_with : Output → World Output → ℕ × World Output
  finish_with out w =
      let (status, r) = h.finish out w.requests in
      (status, record w { requests = r; finished = w.finished + 1 })

  abbrev pub finish_after : Output → Bool × World Output → ℕ × World Output
  finish_after out (false, w) = (h.error_status, w)
  finish_after out (true, w) = finish_with out w

  abbrev pub taken_at : Call → Option Output → World Output → ℕ × World Output
  taken_at call none w = (h.done_status, w)
  taken_at call (some out) w =
      let idle = record w.state { active = false; task = false; output = none } in
      finish_after out (remove_context call.removal call.request (record w { state = idle }))

  -- The handler where the module has its context.
  unfoldable pub continue_phase : Call → World Output → ℕ × World Output
  continue_phase call w =
      if call.pinned_fails
      then (h.error_status, w)
      else (if not w.state.phase_posted then (h.done_status, w) else taken_at call w.state.output w)

  abbrev pub not_started : Call → World Output → ℕ × World Output
  not_started call w = (h.error_status, (remove_context call.removal call.request w).1)

  abbrev pub held_at :
      Call
      → Result RequestHoldError (Requests × Option RequestHold)
      → World Output
      → ℕ × World Output
  held_at call (err e) w = not_started call w
  held_at call (ok (r, slot)) w = (
    h.done_status,
    record w { requests = r; state = record w.state { held = slot }; abandoned = false },
  )

  abbrev pub spawn_at : Call → World Output → ℕ × World Output
  spawn_at call w =
      if call.spawn_fails
      then not_started call w
      else (let w' = record w {
        running = true;
        started = w.started + 1;
        state = record w.state { task = true };
      } in
          held_at call (hold h.native w'.requests call.request w'.state.held) w')

  -- `H::start`: the requests, and the context that it was given.
  abbrev pub start_at : StartAction → ℕ → World Output → World Output
  start_at leaves_context raw w = w
  start_at resets_slot raw w = record w { context_slot = 0 }
  start_at (removes_context m) raw w = (remove_context m raw w).1

  abbrev pub started : Call → World Output → World Output
  started call w =
      let w' = start_at call.start call.request (record w { requests = h.start w.requests }) in
      record w' { detached = not w'.state.active }

  abbrev pub inserted_context : ℕ → ℕ → World Output → World Output
  inserted_context posted c w = record w {
    context_slot = c;
    registered = true;
    state = record (new_state posted) { context = some c };
    event = new;
    running = false;
    refused = false;
    abandoned = true;
    detached = false;
  }

  abbrev pub insert_at : Call → ℕ → Option ℕ → World Output → ℕ × World Output
  insert_at call posted none w = (h.error_status, w)
  insert_at call posted (some c) w = spawn_at call (started call (inserted_context posted c w))

  abbrev pub allocate_at : Call → Option ℕ → World Output → ℕ × World Output
  allocate_at call none w = (h.error_status, w)
  allocate_at call (some posted) w =
      if call.continuation_fails then (h.error_status, w) else insert_at call posted call.inserted w

  -- The handler where it has none.
  unfoldable pub start_phase : Call → World Output → ℕ × World Output
  start_phase call w =
      if call.log_fails || call.pool_fails
      then (h.error_status, w)
      else allocate_at call call.posted_request w

  abbrev pub dispatch_phase : Call → World Output → ℕ × World Output
  dispatch_phase call w = if w.context_slot == 0 then start_phase call w else continue_phase call w

  abbrev pub current_at : Call → Bool × World Output → ℕ × World Output
  current_at call (false, w) = (h.error_status, w)
  current_at call (true, w) = dispatch_phase call w

  -- `AsyncPhaseHandler::handler`.
  unfoldable pub handler : Call → World Output → ℕ × World Output
  handler call w =
      if call.context_fails
      then (h.error_status, w)
      else current_at call (cancel_stale call.request w)

  -- `handler_future`, once the future has its output.
  unfoldable pub complete : Output → World Output → World Output
  complete out w =
      let w' = record w { running = false; completed = w.completed + 1 } in
      if not w.state.active then w' else record w' {
        state = record w.state { output = some out };
        event = (post_owned_event h.posted next w.event).1;
      }

  abbrev is_outdated : State Output → Bool
  is_outdated s = not s.active || s.phase_posted || not (is_some s.output)

  abbrev pub mark_attempt : Result Fault (Unit {0}) → Attempt → World Output → World Output
  mark_attempt (ok _) a w = record w {
    state = record w.state { held = a.slot; phase_posted = true };
    requests = a.after;
    posts = a.queued;
  }
  mark_attempt (err e) a w = record w {
    state = record w.state { held = a.slot };
    requests = a.after;
    posts = a.queued;
    refused = true;
  }

  abbrev pub resume_with : World Output → World Output
  resume_with w =
      let a =
        resume_held h.native h.posting w.state.held w.state.posted_request w.requests w.posts in
      mark_attempt a.outcome a w

  -- `is_current_module_context`, whose own checks may fail.
  abbrev resume_current : Bool → World Output → World Output
  resume_current check_fails w =
      if check_fails
      then record w { refused = true }
      else (if same_context w.state.context w.context_slot
          then resume_with w
          else (cancel_stale (held_request w.state.held) (record w { refused = true })).1)

  -- `async_phase_continuation`.
  unfoldable pub async_phase_continuation : Bool → World Output → World Output
  async_phase_continuation check_fails w =
      if is_outdated w.state
      then w
      else (if not (is_some w.state.held) || not (is_some w.state.context)
          then record w { refused = true }
          else resume_current check_fails w)
