-- ===== src/Http/AsyncRequest/Tests.antt =====
-- One asynchronous request from its start to its finish.
use ngx_rust.Prelude.{ℕ, ◌+◌, ◌-◌, ◌^◌, ◌≤◌, ◌≡◌, ◌⊎◌, refl, true, false, some, [], ◌∷◌}
use ngx_rust.Event.Posted.{Api, IsApi, new, post_owned_event}
use ngx_rust.Event.Owned.{from_raw}
use ngx_rust.Http.Request.{
  Native, Requests, other, main_raw, connection_raw, checked_request_ptr,
  validate_terminal_operation,
}
use ngx_rust.Http.Request.Hold.{
  hold, is_some, cancel, drop_hold, retain_for_cancellation, release_request_reference,
}
use ngx_rust.Http.Request.Continuation.{take, ensure_active, ensure_releasable_hold}
use ngx_rust.Http.Request.Continuation.Phase.{
  Posting, resume_held, resume_phase, resumable, post_phase, checked_write_event,
}
use ngx_rust.Http.AsyncRequest.{
  World, Host, Call, handler, complete, async_phase_continuation, cancel_stale, continue_phase,
  start_phase, remove_context, drop_context, leaves_context, removes_context, removable,
}
use ngx_rust.Http.AsyncRequest.Lifecycle.{flag, Reach, here, later, phase_runs, completes}
use ngx_rust.Http.AsyncRequest.Lifecycle.Reached.{
  idle_world, Reach-references, Reach-finished, Reach-heard,
}

abbrev nginx : Native
nginx = record {
  http_module = 0x50545448;
  max_subrequests = 50;
  declined = 2 ^ 64 - 5;
  done = 2 ^ 64 - 4;
  request_align = 8;
  connection_align = 8;
  request_terminated = λ p w. false;
  finalize_request = λ p s w. w;
  run_phases = λ p w. w;
}

abbrev posting : Posting
posting = record {
  event_align = 8;
  connection_data = λ c. 64;
  write_event = λ c. c + 8;
  post_request = λ r q p. (true, p);
  post_event = λ e p. record p { next_events = e ∷ p.next_events };
}

abbrev posted_api : Api
posted_api = record {
  post_event = λ q e. record e { posted = true; queue = q };
  delete_posted = λ e. record e { posted = false };
}

posted_api-IsApi : IsApi posted_api
posted_api-IsApi = record {
  posts = λ q e h. refl;
  deletes = λ e h. refl;
  keeps_stopped = λ e h. refl;
}

-- The handler answers with its output.
abbrev host : Host ℕ
host = record {
  native = nginx;
  posting = posting;
  posted = posted_api;
  error_status = 500;
  done_status = 2 ^ 64 - 4;
  start = λ w. w;
  finish = λ out w. (out, w);
}

abbrev call : Call
call = record {
  request = 64;
  context_fails = false;
  pinned_fails = false;
  log_fails = false;
  pool_fails = false;
  posted_request = some 128;
  continuation_fails = false;
  inserted = some 256;
  start = leaves_context;
  spawn_fails = false;
  removal = removable;
}

abbrev requests : Requests
requests p = record {
  signature = 0x50545448;
  main = 64;
  parent = 0;
  count = 1;
  pool = 8;
  connection = 512;
  phase_handler = 3;
  write_event_handler = other 0;
}

abbrev idle : World ℕ
idle = idle_world requests (record { next_events = []; posted_requests = [] })

abbrev waiting : World ℕ
waiting = (handler host call idle).1

abbrev completed_world : World ℕ
completed_world = complete host 204 waiting

abbrev dispatched : World ℕ
dispatched =
    async_phase_continuation host false
      (record completed_world { event = record completed_world.event { posted = false } })

suspended : (handler host call idle).0 ≡ 2 ^ 64 - 4
unfolding handler start_phase cancel_stale hold main_raw
suspended = refl

finished : (handler host call dispatched).0 ≡ 204
unfolding handler start_phase continue_phase cancel_stale hold main_raw complete post_owned_event
    new async_phase_continuation resume_held resume_phase resumable post_phase checked_write_event
    take ensure_active ensure_releasable_hold connection_raw checked_request_ptr from_raw
    validate_terminal_operation remove_context retain_for_cancellation
finished = refl

-- A handler whose `start` removes its own context leaves a reference in a continuation that is
-- already inactive.
removed_in_start :
    let w = (handler host (record call { start = removes_context removable }) idle).1 in
    (w.detached ≡ true) × (w.state.active ≡ false) × (is_some w.state.held ≡ true)
unfolding handler start_phase remove_context cancel_stale drop_context hold main_raw
    retain_for_cancellation cancel release_request_reference drop_hold
removed_in_start = (refl, refl, refl)

reached : Reach host idle completed_world
unfolding handler start_phase cancel_stale hold main_raw
reached = later (later here (phase_runs call)) (completes 204 refl)

Reach-references_example :
    (is_some completed_world.state.held ≡ true → completed_world.state.phase_posted ≡ false)
    × (is_some completed_world.state.held ≡ true
        → completed_world.detached ≡ false
        → completed_world.state.active ≡ true)
    × (completed_world.state.active ≡ true
        → completed_world.state.phase_posted ≡ false
        → completed_world.abandoned ≡ false
        → is_some completed_world.state.held ≡ true)
    × (completed_world.detached ≡ true → completed_world.state.active ≡ false)
Reach-references_example =
    Reach-references host posted_api-IsApi requests
      (record { next_events = []; posted_requests = [] }) reached

Reach-finished_example :
    (completed_world.finished + flag (is_some completed_world.state.output)
      ≤ completed_world.completed)
    × (completed_world.completed ≤ completed_world.started)
Reach-finished_example =
    Reach-finished host posted_api-IsApi requests
      (record { next_events = []; posted_requests = [] }) reached

Reach-heard_example :
    (completed_world.state.active ≡ true)
    × ((completed_world.event.posted ≡ true)
        ⊎ (completed_world.state.phase_posted ≡ true)
        ⊎ (completed_world.refused ≡ true))
unfolding complete handler start_phase cancel_stale hold main_raw
Reach-heard_example =
    Reach-heard host posted_api-IsApi requests (record { next_events = []; posted_requests = [] })
      reached refl
