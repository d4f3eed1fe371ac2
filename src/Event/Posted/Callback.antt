-- ===== src/Event/Posted/Callback.antt =====
-- src/event/posted.rs, inside a callback: the control that a callback has, the handler that nginx
-- calls, and the destructor.
use ngx_rust.Prelude.{ℕ, Bool, true, false, not, Result, ok, err, if◌then◌else◌}
use ngx_rust.Event.Owned.{Program, World, drop_owned, handle}
use ngx_rust.Event.Posted.{
  Event, Api, PostedQueue, PostedEventError, shut_down, post_owned_event, cancel_owned_event,
}

pub data Action : Type 0 where
  idle unpost : Action
  repost : PostedQueue → Action

-- `PostedEventCallbackControl`.
pub record Control : Type 0 where
  pub posted : Bool
  pub stopped : Bool
  pub action : Action

unfoldable pub post : PostedQueue → Control → Result PostedEventError Bool × Control
post q c =
    if c.stopped
    then (err shut_down, c)
    else (if c.posted
        then (ok false, c)
        else (ok true, record c { posted = true; action = repost q }))

unfoldable pub cancel : Control → Bool × Control
cancel c = if not c.posted then (false, c) else (true, record c { posted = false; action = unpost })

unfoldable pub shutdown : Control → Bool × Control
shutdown c = cancel (record c { stopped = true })

-- The methods of `PostedEventCallback`.
pub data Request : Type 0 where
  ask_posted ask_shutdown do_cancel do_shutdown : Request
  do_post : PostedQueue → Request

abbrev pub Answer : Type 0
Answer = Result PostedEventError Bool

abbrev pub answered : {A : Type 0} → Bool × A → Answer × A
answered (b, a) = (ok b, a)

unfoldable pub on_control : Request → Control → Answer × Control
on_control ask_posted c = (ok c.posted, c)
on_control ask_shutdown c = (ok c.stopped, c)
on_control do_cancel c = answered (cancel c)
on_control do_shutdown c = answered (shutdown c)
on_control (do_post q) c = post q c

abbrev pub control_of : Event → Control
control_of e = record { posted = e.posted; stopped = e.stopped; action = idle }

module _ (api : Api) where
  unfoldable pub apply : Action → Event → Event
  apply idle e = e
  apply unpost e = (cancel_owned_event api e).1
  apply (repost q) e = (post_owned_event api q e).1

  -- `stopped` is written back before the action is applied.
  abbrev pub finish : Control → Event → Event
  finish c e = apply c.action (record e { stopped = c.stopped })

  -- What the destructor does to the event.
  abbrev pub unposted : Event → Event
  unposted e = (cancel_owned_event api e).1

  unfoldable pub posted_event_handler :
      {T : Type 0} → ℕ → ℕ → Program Request Answer T → World Event T → World Event T
  posted_event_handler = handle on_control unposted control_of finish

  -- `Drop::drop` of a `PostedEvent`.
  abbrev pub drop_posted : {T : Type 0} → World Event T → World Event T
  drop_posted = drop_owned unposted
