-- ===== src/Event/Posted/Deferred.antt =====
-- src/event/posted.rs: what the handler leaves, and a callback's control beside the operations on the
-- event itself.
use ngx_rust.Prelude.{
  ℕ, ◌+◌, ◌≡◌, refl, sym, ap, ◌∙◌, Bool, true, false, not, Option, none, some, arith, ok, err,
  if◌then◌else◌,
}
use ngx_rust.Event.Owned.{Program, World, from_raw, release_owner, run_direct}
use ngx_rust.Event.Owned.Drops.{handle-drops, handle-run_direct}
use ngx_rust.Event.Posted.{
  Event, Api, IsApi, PostedQueue, shut_down, post_owned_event, cancel_owned_event,
}
use ngx_rust.Event.Posted
use ngx_rust.Event.Posted.Callback.{
  Action, idle, unpost, repost, Control, Request, ask_posted, ask_shutdown, do_cancel, do_shutdown,
  do_post, Answer, answered, on_control, apply, finish, control_of, unposted, posted_event_handler,
}
use ngx_rust.Event.Posted.Callback

-- The queue that the event is on.
abbrev pub queued : Event → Option PostedQueue
queued e = if e.posted then some e.queue else none

abbrev pub Alike : Event → Event → Type 0
Alike e e' = (queued e ≡ queued e') × (e.stopped ≡ e'.stopped)

-- What is left to do to an event that is not posted, to make it `e`.
abbrev Pending : Action → Event → Type 0
Pending idle e = e.posted ≡ false
Pending unpost e = e.posted ≡ false
Pending (repost q) e = (e.posted ≡ true) × (e.queue ≡ q) × (e.stopped ≡ false)

abbrev taken : Bool × Event → Event
taken o = o.1

running : (a : Action) (e : Event) → Pending a e → Pending a (record e { stopped = false })
running idle e h = h
running unpost e h = h
running (repost q) e h = (h.0, h.1, refl)

record Follows (c : Control) (e : Event) : Type 0 where
  posted : c.posted ≡ e.posted
  stopped : c.stopped ≡ e.stopped
  pending : Pending c.action e

abbrev Step : Answer × Control → Answer × Event → Type 0
Step o o' = (o.0 ≡ o'.0) × Follows o.1 o'.1

module _ (api : Api) where
  -- The request, made of the event itself.
  abbrev pub on_event : Request → Event → Answer × Event
  on_event ask_posted e = (ok e.posted, e)
  on_event ask_shutdown e = (ok e.stopped, e)
  on_event do_cancel e = answered (cancel_owned_event api e)
  on_event do_shutdown e = answered (Posted.shutdown api e)
  on_event (do_post q) e = post_owned_event api q e

  unposted_lem :
      (e : Event)
      → IsApi api
      → ((unposted api e).posted ≡ false) × ((unposted api e).stopped ≡ e.stopped)
  unfolding cancel_owned_event
  unposted_lem e laws = by_posted e.posted refl
    where
      by_posted :
          (t : Bool)
          → e.posted ≡ t
          → ((taken (if not t then (false, e) else (true, api.delete_posted e))).posted ≡ false)
            × ((taken (if not t then (false, e) else (true, api.delete_posted e))).stopped
                ≡ e.stopped)
      by_posted true h = (laws.deletes e h, laws.keeps_stopped e h)
      by_posted false h = (h, refl)

  cancel-Follows :
      (c : Control) (e : Event)
      → IsApi api
      → c.posted ≡ e.posted
      → c.stopped ≡ e.stopped
      → Pending c.action (record e { stopped = false })
      → ((answered (Callback.cancel c)).0 ≡ (answered (cancel_owned_event api e)).0)
        × Follows (answered (Callback.cancel c)).1 (answered (cancel_owned_event api e)).1
  unfolding Callback.cancel cancel_owned_event
  cancel-Follows c e laws posted stopped pending = by_posted c.posted e.posted refl refl
    where
      by_posted :
          (t u : Bool)
          → c.posted ≡ t
          → e.posted ≡ u
          → ((answered (
                if not t
                then (false, c)
                else (true, record c { posted = false; action = unpost }))).0
              ≡ (answered (if not u then (false, e) else (true, api.delete_posted e))).0)
            × Follows
                (answered (
                  if not t
                  then (false, c)
                  else (true, record c { posted = false; action = unpost }))).1
                (answered (if not u then (false, e) else (true, api.delete_posted e))).1
      by_posted true true h k = (
        refl,
        record {
          posted = sym (laws.deletes e k);
          stopped = stopped ∙ sym (laws.keeps_stopped e k);
          pending = laws.deletes e k;
        },
      )
      by_posted false false h k =
          (refl, record { posted = posted; stopped = stopped; pending = still c.action pending k })
        where
          still :
              (a : Action)
              → Pending a (record e { stopped = false })
              → e.posted ≡ false
              → Pending a e
          still idle p z = z
          still unpost p z = z
          still (repost q) p z = absurd (cc (p.0, z))
      by_posted true false h k = absurd (cc posted)
      by_posted false true h k = absurd (cc posted)

  request-Follows :
      (r : Request) (c : Control) (e : Event)
      → IsApi api
      → Follows c e
      → ((on_control r c).0 ≡ (on_event r e).0) × Follows (on_control r c).1 (on_event r e).1
  unfolding on_control Callback.post Callback.shutdown post_owned_event Posted.shutdown
  request-Follows ask_posted c e laws f = (ap ok f.posted, f)
  request-Follows ask_shutdown c e laws f = (ap ok f.stopped, f)
  request-Follows do_cancel c e laws f =
      cancel-Follows c e laws f.posted f.stopped (running c.action e f.pending)
  request-Follows do_shutdown c e laws f =
      cancel-Follows (record c { stopped = true }) (record e { stopped = true }) laws f.posted refl
        (running c.action e f.pending)
  request-Follows (do_post q) c e laws f =
      by_flags c.stopped e.stopped c.posted e.posted refl refl refl refl
    where
      by_flags :
          (t u t' u' : Bool)
          → c.stopped ≡ t
          → e.stopped ≡ u
          → c.posted ≡ t'
          → e.posted ≡ u'
          → Step
              (if t
                then (err shut_down, c)
                else (if t'
                    then (ok false, c)
                    else (ok true, record c { posted = true; action = repost q })))
              (if u
                then (err shut_down, e)
                else (if u' then (ok false, e) else (ok true, api.post_event q e)))
      by_flags true true t' u' h k h' k' = (refl, f)
      by_flags false false true true h k h' k' = (refl, f)
      by_flags false false false false h k h' k' =
          let added = laws.posts q e k' in
          (
            refl,
            record {
              posted = sym (ap (λ x. x.posted) added);
              stopped = f.stopped ∙ sym (ap (λ x. x.stopped) added);
              pending = (
                ap (λ x. x.posted) added,
                ap (λ x. x.queue) added,
                ap (λ x. x.stopped) added ∙ k,
              );
            },
          )
      by_flags true false t' u' h k h' k' = absurd (cc f.stopped)
      by_flags false true t' u' h k h' k' = absurd (cc f.stopped)
      by_flags false false true false h k h' k' = absurd (cc f.posted)
      by_flags false false false true h k h' k' = absurd (cc f.posted)

  post_owned_event-posts :
      (q : PostedQueue) (e : Event)
      → IsApi api
      → e.stopped ≡ false
      → e.posted ≡ false
      → (post_owned_event api q e).1 ≡ record e { posted = true; queue = q }
  unfolding post_owned_event
  post_owned_event-posts q e laws h k =
      ap after (λ i.
        if h i
        then (err shut_down, e)
        else (if k i then (ok false, e) else (ok true, api.post_event q e)))
      ∙ laws.posts q e k
    where
      after : Answer × Event → Event
      after o = o.1

  finish-Alike :
      (c : Control) (e0 e : Event)
      → IsApi api
      → e0.posted ≡ false
      → Follows c e
      → Alike (finish api c e0) e
  unfolding apply
  finish-Alike c e0 e laws fresh f = by_action c.action f.pending
    where
      e1 : Event
      e1 = record e0 { stopped = c.stopped }

      by_action :
          (a : Action) → Pending a e → Alike (apply api a (record e0 { stopped = c.stopped })) e
      by_action idle h = (ground (arith), f.stopped)
      by_action unpost h =
          let quiet = unposted_lem e1 laws in (ground (arith, quiet.0, h), quiet.1 ∙ f.stopped)
      by_action (repost q) h =
          let posting = post_owned_event-posts q e1 laws (f.stopped ∙ h.2) fresh in
          (
            ap queued posting ∙ ap some (sym h.1) ∙ ground (arith, h.0),
            ap (λ x. x.stopped) posting ∙ f.stopped,
          )

  -- A callback that keeps the event, whose event nginx took from its queue, leaves its state, the queue
  -- that the event is on and whether it is shut down, as the same callback would by operating on the
  -- event itself.
  pub posted_event_handler-run_direct :
      {T : Type 0} (align raw : ℕ) (callback : Program Request Answer T) (w : World Event T)
      → IsApi api
      → w.event.posted ≡ false
      → from_raw align raw ≡ ok tt
      → w.released ≡ false
      → (posted_event_handler api align raw callback w).released ≡ false
      → ((posted_event_handler api align raw callback w).state
          ≡ (run_direct on_event callback w.state w.event).0)
        × Alike
            (posted_event_handler api align raw callback w).event
            (run_direct on_event callback w.state w.event).1
  unfolding posted_event_handler
  posted_event_handler-run_direct align raw callback w laws fresh =
      handle-run_direct on_control (unposted api) control_of (finish api) on_event
        (λ e0 c e. Follows c e) align raw callback w Alike (λ r c e. request-Follows r c e laws)
        (λ c e. finish-Alike c w.event e laws fresh)
        (record { posted = refl; stopped = refl; pending = fresh })

  -- Whatever its callback does, the state and the callback of a posted event are dropped exactly once,
  -- and the event that is gone is on no queue.
  pub posted_event_handler-drop_posted :
      {T : Type 0} (align raw : ℕ) (callback : Program Request Answer T) (w : World Event T)
      → IsApi api
      → from_raw align raw ≡ ok tt
      → w.released ≡ false
      → ((release_owner (unposted api) (posted_event_handler api align raw callback w)).state_drops
          ≡ w.state_drops + 1)
        × ((release_owner
              (unposted api)
              (posted_event_handler api align raw callback w)).callback_drops
            ≡ w.callback_drops + 1)
        × (queued
              (release_owner (unposted api) (posted_event_handler api align raw callback w)).event
            ≡ none)
  unfolding posted_event_handler
  posted_event_handler-drop_posted align raw callback w laws =
      handle-drops on_control (unposted api) control_of (finish api) align raw callback w
        (λ e. queued e ≡ none) (λ e. rw (unposted_lem e laws).0 refl)
