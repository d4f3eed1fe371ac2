-- ===== src/Event/Timer/Tests.antt =====
-- src/event/timer.rs: a timer that was delivered, with a callback that arms it again, and one that
-- also drops it.
use ngx_rust.Prelude.{ℕ, ◌+◌, ◌%◌, ◌^◌, ◌≡◌, refl, Bool, true, false, Option, some}
use ngx_rust.Event.Owned.{
  Program, done, request, read_state, write_state, release, World, from_raw, release_owner,
  run_direct, run, settle, handle,
}
use ngx_rust.Event.Timer.{Event, Api, IsApi, disarm}
use ngx_rust.Event.Timer.Callback.{
  Request, ask_timeout, ask_cancel, ask_rearm, on_control, apply, timer_handler,
}
use ngx_rust.Event.Timer.Callback
use ngx_rust.Event.Timer.Deferred.{
  on_event, deadline, Alike, timer_handler-run_direct, timer_handler-drop_timer,
}

abbrev now : ℕ
now = 1000

abbrev api : Api
api = record {
  add_timer = λ timeout e. record e { timer_set = true; key = (now + timeout) % 2 ^ 64 };
  del_timer = λ e. record e { timer_set = false };
}

api-IsApi : IsApi now api
api-IsApi = record {
  sets = λ timeout e h. refl;
  unsets = λ e h. refl;
  keeps_timedout = λ e h. refl;
  keeps_cancelable = λ e h. refl;
}

abbrev delivered : World Event ℕ
delivered = record {
  event = record { timer_set = false; timedout = true; cancelable = false; key = 900 };
  state = 4;
  callback_alive = false;
  alive = false;
  released = false;
  state_drops = 0;
  callback_drops = 0;
}

abbrev again : Program Request (Option Bool) ℕ
again = request ask_timeout (λ taken. request (ask_rearm 20) (λ none.
    request ask_cancel
      (λ removed. request (ask_rearm 30) (λ none. read_state (λ n. write_state (n + 1) done)))))

abbrev last : Program Request (Option Bool) ℕ
last = request (ask_rearm 20) (λ none. release done)

-- The deadline is the last that was asked for.
abbrev Rearmed : World Event ℕ → Type 0
Rearmed w =
    (w.state ≡ 5)
    × (deadline w.event ≡ some 1030)
    × (w.event.timedout ≡ false)
    × (w.event.cancelable ≡ false)

again_run : Rearmed (timer_handler api 8 64 again delivered)
unfolding timer_handler handle from_raw run settle apply on_control Callback.take_timeout
    Callback.rearm Callback.cancel
again_run = (refl, refl, refl, refl)

timer_handler-run_direct_example :
    ((timer_handler api 8 64 again delivered).state
      ≡ (run_direct (on_event api) again 4 delivered.event).0)
    × Alike
        (timer_handler api 8 64 again delivered).event
        (run_direct (on_event api) again 4 delivered.event).1
unfolding timer_handler handle from_raw run settle apply on_control Callback.take_timeout
    Callback.rearm Callback.cancel
timer_handler-run_direct_example =
    timer_handler-run_direct api now 8 64 again delivered api-IsApi refl refl refl

timer_handler-drop_timer_example :
    ((release_owner (disarm api) (timer_handler api 8 64 last delivered)).state_drops ≡ 1)
    × ((release_owner (disarm api) (timer_handler api 8 64 last delivered)).callback_drops ≡ 1)
    × ((release_owner (disarm api) (timer_handler api 8 64 last delivered)).event.timer_set ≡ false)
unfolding from_raw
timer_handler-drop_timer_example =
    timer_handler-drop_timer api now 8 64 last delivered api-IsApi refl refl
