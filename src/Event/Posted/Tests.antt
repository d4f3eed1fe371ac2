-- ===== src/Event/Posted/Tests.antt =====
-- src/event/posted.rs: an event that nginx took from its queue, with a callback that posts it again,
-- and one that also shuts it down and drops it.
use ngx_rust.Prelude.{ℕ, ◌+◌, ◌≡◌, refl, true, false, some}
use ngx_rust.Event.Owned.{
  Program, done, request, read_state, write_state, release, World, from_raw, run_direct, run,
  settle, handle,
}
use ngx_rust.Event.Posted.{Event, Api, IsApi, normal, next, post_owned_event}
use ngx_rust.Event.Posted.Callback.{
  Request, Answer, do_post, do_cancel, do_shutdown, on_control, apply, unposted,
  posted_event_handler,
}
use ngx_rust.Event.Posted.Callback
use ngx_rust.Event.Posted.Deferred.{on_event, queued, Alike, posted_event_handler-run_direct}

abbrev api : Api
api = record {
  post_event = λ q e. record e { posted = true; queue = q };
  delete_posted = λ e. record e { posted = false };
}

api-IsApi : IsApi api
api-IsApi = record { posts = λ q e h. refl; deletes = λ e h. refl; keeps_stopped = λ e h. refl }

abbrev taken : World Event ℕ
taken = record {
  event = record { posted = false; queue = normal; stopped = false };
  state = 4;
  callback_alive = false;
  alive = false;
  released = false;
  state_drops = 0;
  callback_drops = 0;
}

abbrev again : Program Request Answer ℕ
again = request (do_post normal) (λ a.
    request do_cancel
      (λ b. request (do_post next) (λ c. read_state (λ n. write_state (n + 1) done))))

abbrev last : Program Request Answer ℕ
last = request (do_post next) (λ a. release (request do_shutdown (λ b. done)))

again_run :
    (queued (posted_event_handler api 8 64 again taken).event ≡ some next)
    × ((posted_event_handler api 8 64 again taken).state ≡ 5)
unfolding posted_event_handler handle from_raw run settle apply on_control Callback.post
    Callback.cancel post_owned_event
again_run = (refl, refl)

posted_event_handler-run_direct_example :
    ((posted_event_handler api 8 64 again taken).state
      ≡ (run_direct (on_event api) again 4 taken.event).0)
    × Alike
        (posted_event_handler api 8 64 again taken).event
        (run_direct (on_event api) again 4 taken.event).1
unfolding posted_event_handler handle from_raw run settle apply on_control Callback.post
    Callback.cancel post_owned_event
posted_event_handler-run_direct_example =
    posted_event_handler-run_direct api 8 64 again taken api-IsApi refl refl refl refl
