-- ===== src/Event/Posted.antt =====
-- src/event/posted.rs, outside a callback: an owned posted event and the operations on it. nginx's
-- `ngx_post_event` and `ngx_delete_posted_event` are functions on the event, which the model takes.
mod Tests
pub mod Callback
pub mod Deferred
use ngx_rust.Prelude.{◌≡◌, Bool, true, false, not, Result, ok, err, if◌then◌else◌}

pub data PostedQueue : Type 0 where
  normal next : PostedQueue

pub data PostedEventError : Type 0 where
  shut_down : PostedEventError

-- The event's `posted`, the queue it was last posted to, and the owner's `stopped`.
pub record Event : Type 0 where
  pub posted : Bool
  pub queue : PostedQueue
  pub stopped : Bool

pub record Api : Type 0 where
  pub post_event : PostedQueue → Event → Event
  pub delete_posted : Event → Event

-- What nginx documents, of an event that is not posted and of one that is.
pub record IsApi (api : Api) : Type 0 where
  pub posts :
      (q : PostedQueue) (e : Event)
      → e.posted ≡ false
      → api.post_event q e ≡ record e { posted = true; queue = q }
  pub deletes : (e : Event) → e.posted ≡ true → (api.delete_posted e).posted ≡ false
  pub keeps_stopped : (e : Event) → e.posted ≡ true → (api.delete_posted e).stopped ≡ e.stopped

-- `PostedEvent::new`.
unfoldable pub new : Event
new = record { posted = false; queue = normal; stopped = false }

module _ (api : Api) where
  unfoldable pub post_owned_event : PostedQueue → Event → Result PostedEventError Bool × Event
  post_owned_event q e =
      if e.stopped
      then (err shut_down, e)
      else (if e.posted then (ok false, e) else (ok true, api.post_event q e))

  unfoldable pub cancel_owned_event : Event → Bool × Event
  cancel_owned_event e = if not e.posted then (false, e) else (true, api.delete_posted e)

  unfoldable pub shutdown : Event → Bool × Event
  shutdown e = cancel_owned_event (record e { stopped = true })
