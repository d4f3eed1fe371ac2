-- ===== src/Http/AsyncRequest/Lifecycle/Reached.antt =====
-- src/http/async_request.rs: what holds of an asynchronous request in every reachable world.
use ngx_rust.Prelude.{◌+◌, ◌≤◌, ◌≡◌, ◌⊎◌, true, false, arith, Bool-cases}
use ngx_rust.Event.Posted.{IsApi, new, shutdown, cancel_owned_event}
use ngx_rust.Http.Request.{Requests}
use ngx_rust.Http.Request.Hold.{cancel, is_some}
use ngx_rust.Http.Request.Continuation.Phase.{Posts}
use ngx_rust.Http.AsyncRequest.{World, Host, new_state, drop_context, complete}
use ngx_rust.Http.AsyncRequest.Lifecycle.{
  flag, IsSound, Step, Reach, phase_runs, completes, dispatches, redirects, cancels, torn_down,
  changes, here, later,
}
use ngx_rust.Http.AsyncRequest.Lifecycle.Cancel.{
  drop-IsSound, complete-IsSound, stale-IsSound, dispatch-IsSound, frame-IsSound,
}
use ngx_rust.Http.AsyncRequest.Lifecycle.Phase.{handler-IsSound}

module _ {Output : Type 0} (h : Host Output) (api : IsApi h.posted) where
  pub Step-IsSound : {w w' : World Output} → Step h w w' → IsSound w → IsSound w'
  Step-IsSound {w} (phase_runs call) s = handler-IsSound h api call w s
  Step-IsSound {w} (completes out r) s = complete-IsSound h api out w r s
  Step-IsSound {w} (dispatches b p) s = dispatch-IsSound h api b w p s
  Step-IsSound {w} redirects s = frame-IsSound h api w w.requests w.posts 0 s
  Step-IsSound {w} (cancels raw) s = stale-IsSound h api raw w s
  Step-IsSound {w} (torn_down r) s = drop-IsSound h api w s
  Step-IsSound {w} (changes r p) s = frame-IsSound h api w r p w.context_slot s

  -- In every reachable world
  pub Reach-IsSound : {w w' : World Output} → IsSound w → Reach h w w' → IsSound w'
  Reach-IsSound s here = s
  Reach-IsSound s (later r st) = Step-IsSound st (Reach-IsSound s r)

-- A request that no context was made for.
abbrev pub idle_world : {Output : Type 0} → Requests → Posts → World Output
idle_world r p = record {
  requests = r;
  posts = p;
  context_slot = 0;
  registered = false;
  state = record (new_state 0) { active = false };
  event = record new { stopped = true };
  running = false;
  started = 0;
  completed = 0;
  finished = 0;
  refused = false;
  abandoned = false;
  detached = false;
}

module _ {Output : Type 0} (h : Host Output) (api : IsApi h.posted) (r : Requests) (p : Posts)
    {w : World Output} (reached : Reach h (idle_world r p) w) where
  idle-IsSound : IsSound (idle_world {Output = Output} r p)
  unfolding new
  idle-IsSound = ground arith

  -- Whatever happens to a request, its continuation keeps a reference only while the phase is not
  -- posted and, unless the handler's own `start` has dropped its context, only while it is active.
  -- It does keep one while it is active and the phase is not posted, unless its start has not
  -- succeeded and its context could not be removed. One whose `start` dropped its context is not
  -- active again.
  pub Reach-references :
      (is_some w.state.held ≡ true → w.state.phase_posted ≡ false)
      × (is_some w.state.held ≡ true → w.detached ≡ false → w.state.active ≡ true)
      × (w.state.active ≡ true
          → w.state.phase_posted ≡ false
          → w.abandoned ≡ false
          → is_some w.state.held ≡ true)
      × (w.detached ≡ true → w.state.active ≡ false)
  Reach-references =
      let s = Reach-IsSound h api idle-IsSound reached in (s.suspended, s.waits, s.holds, s.gone)

  -- `finish` is called at most once for each completed task, and a task completes at most once;
  -- the output that still waits is one of a completion without a call.
  pub Reach-finished :
      (w.finished + flag (is_some w.state.output) ≤ w.completed) × (w.completed ≤ w.started)
  Reach-finished =
      let s = Reach-IsSound h api idle-IsSound reached in (s.outputs, omega (arith, s.starts))

  -- No completion is lost: an output that waits belongs to an active continuation, whose event is
  -- posted, or whose phase is, or whose resumption was refused.
  pub Reach-heard :
      is_some w.state.output ≡ true
      → (w.state.active ≡ true)
        × ((w.event.posted ≡ true) ⊎ (w.state.phase_posted ≡ true) ⊎ (w.refused ≡ true))
  Reach-heard e =
      let s = Reach-IsSound h api idle-IsSound reached in
      ground (arith, s.has_output, s.heard, Bool-cases w.state.phase_posted, Bool-cases w.refused)

-- After its context is dropped, a continuation keeps no reference, no output and no posted event,
-- and a completion that comes late changes neither it nor its event nor the requests.
pub complete-dropped :
    {Output : Type 0} (h : Host Output) (api : IsApi h.posted) (out : Output) (w : World Output)
    → let d = drop_context h w in
      (is_some d.state.held ≡ false)
      × (is_some d.state.output ≡ false)
      × (d.event.posted ≡ false)
      × ((complete h out d).state ≡ d.state)
      × ((complete h out d).event ≡ d.event)
      × ((complete h out d).requests ≡ d.requests)
unfolding drop_context complete cancel shutdown cancel_owned_event
complete-dropped h api out w = ground (arith, api.deletes (record w.event { stopped = true }))
