-- ===== src/Event/Timer/Callback.antt =====
-- src/event/timer.rs, inside a callback: the control that a callback has, the handler that nginx
-- calls, and the destructor.
use ngx_rust.Prelude.{ℕ, Bool, true, false, not, Option, none, some, if◌then◌else◌}
use ngx_rust.Event.Owned.{Program, World, drop_owned, handle}
use ngx_rust.Event.Timer.{Event, Api, disarm}

pub data Action : Type 0 where
  idle stop : Action
  start : ℕ → Action

-- `TimerCallbackControl`.
pub record Control : Type 0 where
  pub armed : Bool
  pub timed_out : Bool
  pub cancelable : Bool
  pub action : Action

unfoldable pub take_timeout : Control → Bool × Control
take_timeout c = if not c.timed_out then (false, c) else (true, record c { timed_out = false })

unfoldable pub rearm : ℕ → Control → Control
rearm timeout c = record c { armed = true; timed_out = false; action = start timeout }

unfoldable pub cancel : Control → Bool × Control
cancel c = if not c.armed then (false, c) else (true, record c { armed = false; action = stop })

unfoldable pub set_cancelable : Bool → Control → Control
set_cancelable b c = record c { cancelable = b }

-- The methods of `TimerCallback`, and what they answer: none for one without a result.
pub data Request : Type 0 where
  ask_armed ask_timed_out ask_cancelable ask_timeout ask_cancel : Request
  ask_rearm : ℕ → Request
  ask_cancelable_as : Bool → Request

abbrev pub answered : {A : Type 0} → Bool × A → Option Bool × A
answered (b, a) = (some b, a)

unfoldable pub on_control : Request → Control → Option Bool × Control
on_control ask_armed c = (some c.armed, c)
on_control ask_timed_out c = (some c.timed_out, c)
on_control ask_cancelable c = (some c.cancelable, c)
on_control ask_timeout c = answered (take_timeout c)
on_control ask_cancel c = answered (cancel c)
on_control (ask_rearm timeout) c = (none, rearm timeout c)
on_control (ask_cancelable_as b) c = (none, set_cancelable b c)

abbrev pub control_of : Event → Control
control_of e = record {
  armed = e.timer_set;
  timed_out = e.timedout;
  cancelable = e.cancelable;
  action = idle;
}

module _ (api : Api) where
  unfoldable pub apply : Action → Event → Event
  apply idle e = e
  apply stop e = disarm api e
  apply (start timeout) e = api.add_timer timeout (disarm api e)

  -- The flags are written back before the action is applied.
  abbrev pub finish : Control → Event → Event
  finish c e = apply c.action (record e { timedout = c.timed_out; cancelable = c.cancelable })

  unfoldable pub timer_handler :
      {T : Type 0} → ℕ → ℕ → Program Request (Option Bool) T → World Event T → World Event T
  timer_handler = handle on_control (disarm api) control_of finish

  -- `Drop::drop` of a `Timer`.
  abbrev pub drop_timer : {T : Type 0} → World Event T → World Event T
  drop_timer = drop_owned (disarm api)
