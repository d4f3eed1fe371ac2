-- ===== src/Http/Request/Continuation/Phase.antt =====
-- src/http/request/continuation.rs: the resumption of the current phase through nginx's posted
-- events, by the hold that a delayed operation kept. A failure gives the hold back to its slot.
use ngx_rust.Prelude.{
  ℕ, ◌-◌, ◌≤◌, ◌^◌, ◌≡◌, ◌≢◌, refl, ◌⊎◌, Bool, true, false, Option, none, some, List, leb, ◌==◌,
  if◌then◌else◌, Result, ok, err, ◌>>=◌, ◌>>◌, fail_if, map_err, arith,
}
use ngx_rust.Event.Owned.{from_raw}
use ngx_rust.Http.Request.{
  Native, Requests, RequestError, allocation, connection, event, Handler, core_run_phases, write,
  set_count, connection_raw, checked_request_ptr,
}
use ngx_rust.Http.Request.Hold.{RequestHold, RequestHoldError, missing}
use ngx_rust.Http.Request.Continuation.{
  RequestContinuation, Fault, fails, panics, hold, phase, negative_phase_handler, ensure_active,
  ensure_releasable_hold, expect, validate, take, request,
}

-- The queue of next-cycle events, and the requests that nginx has queued on their connections.
pub record Posts : Type 0 where
  pub next_events : List ℕ
  pub posted_requests : List ℕ

-- A connection's `data` and write event, and `ngx_http_post_request` and `ngx_post_event`.
pub record Posting : Type 0 where
  pub event_align : ℕ
  pub connection_data : ℕ → ℕ
  pub write_event : ℕ → ℕ
  pub post_request : ℕ → ℕ → Posts → Bool × Posts
  pub post_event : ℕ → Posts → Posts

abbrev pub set_handler : ℕ → Handler → Requests → Requests
set_handler raw h w = write raw (record (w raw) { write_event_handler = h }) w

unfoldable pub restore_hold : RequestContinuation → RequestContinuation × Option RequestHold
restore_hold c = (record c { hold = none; consumed = true }, c.hold)

pub record Resumed : Type 0 where
  pub result : Result Fault (Unit {0})
  pub owner : RequestContinuation
  pub requests : Requests
  pub posts : Posts

pub record Attempt : Type 0 where
  pub outcome : Result Fault (Unit {0})
  pub slot : Option RequestHold
  pub after : Requests
  pub queued : Posts

module _ (ngx : Native) (api : Posting) where
  unfoldable pub resumable : RequestContinuation → Requests → Result Fault RequestHold
  resumable c w = do
    ensure_active c
    ensure_releasable_hold c w
    h ← expect c.hold
    validate ngx c w
    fail_if (leb (2 ^ 63) (w c.request).phase_handler) (fails (phase negative_phase_handler))
    ok h

  abbrev pub handed_over : RequestHold → ℕ → Requests → Posts → Requests × Posts
  handed_over h e w p = (set_count h.main ((w h.main).count - 1) w, api.post_event e p)

  abbrev queue_then :
      RequestHold → ℕ → Requests → Bool × Posts → Result RequestError (Requests × Posts) × Posts
  queue_then h e w (true, p) = (ok (handed_over h e w p), p)
  queue_then h e w (false, p) = (err allocation, p)

  abbrev post_at :
      Result RequestError (Unit {0})
      → RequestHold
      → ℕ
      → ℕ
      → Bool
      → Requests
      → Posts
      → Result RequestError (Requests × Posts) × Posts
  post_at (err x) h raw posted current w p = (err x, p)
  post_at (ok _) h raw posted current w p =
      let e = api.write_event (w raw).connection in
      if current
      then (ok (handed_over h e w p), p)
      else queue_then h e w (api.post_request raw posted p)

  unfoldable pub checked_write_event : Requests → ℕ → Result RequestError (Unit {0})
  checked_write_event w raw = do
    c ← connection_raw ngx w raw
    map_err (λ x. connection (event x)) (from_raw api.event_align (api.write_event c))

  -- The closure that posts the write event of the connection; with the outcome, what is queued.
  unfoldable pub post_phase :
      RequestHold → ℕ → ℕ → Bool → Requests → Posts → Result RequestError (Requests × Posts) × Posts
  post_phase h raw posted current w p = post_at (checked_write_event w raw) h raw posted current w p

  abbrev posted_at :
      RequestContinuation
      → Handler
      → Requests
      → Result RequestError (Requests × Posts) × Posts
      → Resumed
  posted_at c original w (err e, p) = record {
    result = err (fails (request e));
    owner = c;
    requests = set_handler c.request original w;
    posts = p;
  }
  posted_at c original w (ok (w', p'), p) = record {
    result = ok tt;
    owner = record c { hold = none; consumed = true };
    requests = w';
    posts = p';
  }

  abbrev resume_at : RequestContinuation → ℕ → Requests → Posts → Result Fault RequestHold → Resumed
  resume_at c posted w p (err e) = record { result = err e; owner = c; requests = w; posts = p }
  resume_at c posted w p (ok h) =
      let raw = c.request in
      let original = (w raw).write_event_handler in
      let w' = set_handler raw core_run_phases w in
      let current = api.connection_data (w raw).connection == raw in
      posted_at c original w' (post_phase h raw posted current w' p)

  -- `RequestContinuation::resume_phase`.
  unfoldable pub resume_phase : RequestContinuation → ℕ → Requests → Posts → Resumed
  resume_phase c posted w p = resume_at c posted w p (resumable c w)

  abbrev attempt_at : Result Fault (Unit {0}) → Resumed → Attempt
  attempt_at (ok _) r = record {
    outcome = ok tt;
    slot = none;
    after = r.requests;
    queued = r.posts;
  }
  attempt_at (err e) r = record {
    outcome = err e;
    slot = (restore_hold r.owner).1;
    after = r.requests;
    queued = r.posts;
  }

  abbrev pub refused : Fault → Option RequestHold → Requests → Posts → Attempt
  refused e slot w p = record { outcome = err e; slot = slot; after = w; queued = p }

  abbrev taken_at :
      Result RequestHoldError (RequestContinuation × Option RequestHold)
      → RequestHold
      → ℕ
      → Requests
      → Posts
      → Attempt
  taken_at (err e) h posted w p = refused (fails (hold e)) (some h) w p
  taken_at (ok (c, slot)) h posted w p = let r = resume_phase c posted w p in attempt_at r.result r

  abbrev checked_at : Result RequestError (Unit {0}) → RequestHold → ℕ → Requests → Posts → Attempt
  checked_at (err e) h posted w p = refused (fails (request e)) (some h) w p
  checked_at (ok _) h posted w p = taken_at (take ngx w (some h) h.request) h posted w p

  -- `RequestHold::resume_phase`.
  unfoldable pub resume_held : Option RequestHold → ℕ → Requests → Posts → Attempt
  resume_held none posted w p = refused (fails (hold missing)) none w p
  resume_held (some h) posted w p = checked_at (checked_request_ptr ngx w h.request) h posted w p

  -- The reference went to nginx: the handler of the request is the phase runner, the main request
  -- has one reference less, the slot is empty, and the write event is posted for the next cycle,
  -- after the request is queued where another one is current on the connection.
  abbrev pub IsResumed : RequestHold → ℕ → Requests → Posts → Attempt → Type 0
  IsResumed h posted w p a =
      let c = (w h.request).connection in
      let raw = h.request in
      (a.outcome ≡ ok tt)
      × (a.slot ≡ none)
      × (2 ≤ (w h.main).count)
      × (a.after
          ≡ set_count h.main ((w h.main).count - 1) (set_handler h.request core_run_phases w))
      × (a.queued
          ≡ api.post_event (api.write_event c)
              (if api.connection_data c == raw then p else (api.post_request raw posted p).1))

  -- Nothing happened to the requests, as seen from one of them, and the hold is in its slot.
  abbrev pub IsUndone : RequestHold → Requests → Attempt → ℕ → Type 0
  IsUndone h w a k =
      (a.outcome ≢ ok tt) × (a.outcome ≢ err panics) × (a.slot ≡ some h) × (a.after k ≡ w k)

  -- Resuming the phase of a held request hands its reference to nginx, or it fails without a panic,
  -- and then every request is as it was and the hold is back in its slot.
  pub resume_held-or_IsUndone :
      (h : RequestHold) (posted : ℕ) (w : Requests) (p : Posts) (k : ℕ)
      → IsResumed h posted w p (resume_held (some h) posted w p)
        ⊎ IsUndone h w (resume_held (some h) posted w p) k
  unfolding resume_held resume_phase resumable post_phase checked_write_event take restore_hold
      ensure_active ensure_releasable_hold
  resume_held-or_IsUndone h posted w p k = ground arith

  -- An empty slot has nothing to resume.
  pub resume_held-empty :
      (posted : ℕ) (w : Requests) (p : Posts)
      → resume_held none posted w p ≡ refused (fails (hold missing)) none w p
  unfolding resume_held
  resume_held-empty posted w p = refl
