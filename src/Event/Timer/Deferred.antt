-- ===== src/Event/Timer/Deferred.antt =====
-- src/event/timer.rs: what the handler leaves, and a callback's control beside the operations on the timer itself.
use ngx_rust.Prelude.{
  ℕ, ◌+◌, ◌%◌, ◌^◌, ◌≡◌, refl, sym, ap, ◌∙◌, Bool, true, false, not, Option, none, some, arith, ok,
  if◌then◌else◌,
}
use ngx_rust.Event.Owned.{Program, World, from_raw, release_owner, run_direct}
use ngx_rust.Event.Owned.Drops.{handle-drops, handle-run_direct}
use ngx_rust.Event.Timer.{Event, Api, IsApi, disarm}
use ngx_rust.Event.Timer
use ngx_rust.Event.Timer.Callback.{
  Action, idle, stop, start, Control, Request, ask_armed, ask_timed_out, ask_cancelable,
  ask_timeout, ask_cancel, ask_rearm, ask_cancelable_as, answered, on_control, apply, finish,
  control_of, timer_handler,
}
use ngx_rust.Event.Timer.Callback

-- When the event is to expire.
abbrev pub deadline : Event → Option ℕ
deadline e = if e.timer_set then some e.key else none

abbrev pub Alike : Event → Event → Type 0
Alike e e' =
    (deadline e ≡ deadline e') × (e.timedout ≡ e'.timedout) × (e.cancelable ≡ e'.cancelable)

-- What is left to do to an event that was `e0`, to make it `e`.
abbrev Pending : ℕ → Action → Event → Event → Type 0
Pending now idle e0 e = deadline e ≡ deadline e0
Pending now stop e0 e = e.timer_set ≡ false
Pending now (start timeout) e0 e = deadline e ≡ some ((now + timeout) % 2 ^ 64)

record Follows (now : ℕ) (c : Control) (e0 e : Event) : Type 0 where
  armed : c.armed ≡ e.timer_set
  timed_out : c.timed_out ≡ e.timedout
  cancelable : c.cancelable ≡ e.cancelable
  pending : Pending now c.action e0 e

kept :
    (now : ℕ) (a : Action) (e0 e e' : Event)
    → deadline e ≡ deadline e'
    → e.timer_set ≡ e'.timer_set
    → Pending now a e0 e
    → Pending now a e0 e'
kept now idle e0 e e' d t h = sym d ∙ h
kept now stop e0 e e' d t h = sym t ∙ h
kept now (start timeout) e0 e e' d t h = sym d ∙ h

module _ (api : Api) where
  -- The request, made of the timer itself.
  abbrev pub on_event : Request → Event → Option Bool × Event
  on_event ask_armed e = (some e.timer_set, e)
  on_event ask_timed_out e = (some e.timedout, e)
  on_event ask_cancelable e = (some e.cancelable, e)
  on_event ask_timeout e = answered (Timer.take_timeout e)
  on_event ask_cancel e = answered (Timer.cancel api e)
  on_event (ask_rearm timeout) e = (none, Timer.rearm api timeout e)
  on_event (ask_cancelable_as b) e = (none, Timer.set_cancelable b e)

  disarm_lem :
      (now : ℕ) (e : Event)
      → IsApi now api
      → ((disarm api e).timer_set ≡ false)
        × ((disarm api e).timedout ≡ e.timedout)
        × ((disarm api e).cancelable ≡ e.cancelable)
  disarm_lem now e laws = by_set e.timer_set refl
    where
      by_set :
          (t : Bool)
          → e.timer_set ≡ t
          → ((if t then api.del_timer e else e).timer_set ≡ false)
            × ((if t then api.del_timer e else e).timedout ≡ e.timedout)
            × ((if t then api.del_timer e else e).cancelable ≡ e.cancelable)
      by_set true h = (laws.unsets e h, laws.keeps_timedout e h, laws.keeps_cancelable e h)
      by_set false h = (h, refl, refl)

  rearm_lem :
      (now timeout : ℕ) (e : Event)
      → IsApi now api
      → ((Timer.rearm api timeout e).timer_set ≡ true)
        × ((Timer.rearm api timeout e).key ≡ (now + timeout) % 2 ^ 64)
        × ((Timer.rearm api timeout e).timedout ≡ false)
        × ((Timer.rearm api timeout e).cancelable ≡ e.cancelable)
  unfolding Timer.rearm
  rearm_lem now timeout e laws =
      let quiet = disarm_lem now e laws in
      let e' = disarm api e in
      let added = laws.sets timeout (record e' { timedout = false }) quiet.0 in
      (
        ap (λ x. x.timer_set) added,
        ap (λ x. x.key) added,
        ap (λ x. x.timedout) added,
        ap (λ x. x.cancelable) added ∙ quiet.2,
      )

  request-Follows :
      (now : ℕ) (r : Request) (c : Control) (e0 e : Event)
      → IsApi now api
      → Follows now c e0 e
      → ((on_control r c).0 ≡ (on_event r e).0) × Follows now (on_control r c).1 e0 (on_event r e).1
  unfolding on_control Callback.take_timeout Callback.rearm Callback.cancel Callback.set_cancelable
      Timer.take_timeout Timer.cancel Timer.set_cancelable
  request-Follows now ask_armed c e0 e laws f = (ap some f.armed, f)
  request-Follows now ask_timed_out c e0 e laws f = (ap some f.timed_out, f)
  request-Follows now ask_cancelable c e0 e laws f = (ap some f.cancelable, f)
  request-Follows now ask_timeout c e0 e laws f = by_expiry c.timed_out e.timedout refl refl
    where
      by_expiry :
          (t u : Bool)
          → c.timed_out ≡ t
          → e.timedout ≡ u
          → ((answered (if not t then (false, c) else (true, record c { timed_out = false }))).0
              ≡ (answered (if not u then (false, e) else (true, record e { timedout = false }))).0)
            × Follows now
                (answered (if not t then (false, c) else (true, record c { timed_out = false }))).1
                e0
                (answered (if not u then (false, e) else (true, record e { timedout = false }))).1
      by_expiry true true h k = (
        refl,
        record {
          armed = f.armed;
          timed_out = refl;
          cancelable = f.cancelable;
          pending = kept now c.action e0 e (record e { timedout = false }) refl refl f.pending;
        },
      )
      by_expiry false false h k = (refl, f)
      by_expiry true false h k = absurd (cc f.timed_out)
      by_expiry false true h k = absurd (cc f.timed_out)
  request-Follows now ask_cancel c e0 e laws f = by_set c.armed e.timer_set refl refl
    where
      by_set :
          (t u : Bool)
          → c.armed ≡ t
          → e.timer_set ≡ u
          → ((answered
                (if not t then (false, c) else (true, record c { armed = false; action = stop }))).0
              ≡ (answered (if not u then (false, e) else (true, api.del_timer e))).0)
            × Follows now
                (answered (
                  if not t
                  then (false, c)
                  else (true, record c { armed = false; action = stop }))).1
                e0
                (answered (if not u then (false, e) else (true, api.del_timer e))).1
      by_set true true h k = (
        refl,
        record {
          armed = sym (laws.unsets e k);
          timed_out = f.timed_out ∙ sym (laws.keeps_timedout e k);
          cancelable = f.cancelable ∙ sym (laws.keeps_cancelable e k);
          pending = laws.unsets e k;
        },
      )
      by_set false false h k = (refl, f)
      by_set true false h k = absurd (cc f.armed)
      by_set false true h k = absurd (cc f.armed)
  request-Follows now (ask_rearm timeout) c e0 e laws f =
      let again = rearm_lem now timeout e laws in
      (
        refl,
        record {
          armed = sym again.0;
          timed_out = sym again.2;
          cancelable = f.cancelable ∙ sym again.3;
          pending = rw again.0 (ap some again.1);
        },
      )
  request-Follows now (ask_cancelable_as b) c e0 e laws f = (
    refl,
    record {
      armed = f.armed;
      timed_out = f.timed_out;
      cancelable = refl;
      pending = kept now c.action e0 e (record e { cancelable = b }) refl refl f.pending;
    },
  )

  finish-Alike :
      (now : ℕ) (c : Control) (e0 e : Event)
      → IsApi now api
      → Follows now c e0 e
      → Alike (finish api c e0) e
  unfolding apply
  finish-Alike now c e0 e laws f = by_action c.action f.pending
    where
      e1 : Event
      e1 = record e0 { timedout = c.timed_out; cancelable = c.cancelable }

      quiet :
          ((disarm api e1).timer_set ≡ false)
          × ((disarm api e1).timedout ≡ c.timed_out)
          × ((disarm api e1).cancelable ≡ c.cancelable)
      quiet = disarm_lem now e1 laws

      by_action : (a : Action) → Pending now a e0 e → Alike (apply api a e1) e
      by_action idle h = (sym h, f.timed_out, f.cancelable)
      by_action stop h = (ground (arith, quiet.0, h), quiet.1 ∙ f.timed_out, quiet.2 ∙ f.cancelable)
      by_action (start timeout) h =
          let added = laws.sets timeout (disarm api e1) quiet.0 in
          (
            ap deadline added ∙ sym h,
            ap (λ x. x.timedout) added ∙ quiet.1 ∙ f.timed_out,
            ap (λ x. x.cancelable) added ∙ quiet.2 ∙ f.cancelable,
          )

  -- A callback that does not drop the timer leaves its state, and its event's deadline and flags, as
  -- the same callback would by operating on the timer itself.
  pub timer_handler-run_direct :
      {T : Type 0} (now align raw : ℕ) (callback : Program Request (Option Bool) T)
      (w : World Event T)
      → IsApi now api
      → from_raw align raw ≡ ok tt
      → w.released ≡ false
      → (timer_handler api align raw callback w).released ≡ false
      → ((timer_handler api align raw callback w).state
          ≡ (run_direct on_event callback w.state w.event).0)
        × Alike
            (timer_handler api align raw callback w).event
            (run_direct on_event callback w.state w.event).1
  unfolding timer_handler
  timer_handler-run_direct now align raw callback w laws =
      handle-run_direct on_control (disarm api) control_of (finish api) on_event
        (λ e0 c e. Follows now c e0 e) align raw callback w Alike
        (λ r c e. request-Follows now r c w.event e laws) (λ c e. finish-Alike now c w.event e laws)
        (record { armed = refl; timed_out = refl; cancelable = refl; pending = refl })

  -- Whatever its callback does, a timer's state and callback are dropped exactly once, by the handler
  -- where the callback dropped the timer and with its owner otherwise, and the event of the timer that
  -- is gone is not set.
  pub timer_handler-drop_timer :
      {T : Type 0} (now align raw : ℕ) (callback : Program Request (Option Bool) T)
      (w : World Event T)
      → IsApi now api
      → from_raw align raw ≡ ok tt
      → w.released ≡ false
      → ((release_owner (disarm api) (timer_handler api align raw callback w)).state_drops
          ≡ w.state_drops + 1)
        × ((release_owner (disarm api) (timer_handler api align raw callback w)).callback_drops
            ≡ w.callback_drops + 1)
        × ((release_owner (disarm api) (timer_handler api align raw callback w)).event.timer_set
            ≡ false)
  unfolding timer_handler
  timer_handler-drop_timer now align raw callback w laws =
      handle-drops on_control (disarm api) control_of (finish api) align raw callback w
        (λ e. e.timer_set ≡ false) (λ e. (disarm_lem now e laws).0)
