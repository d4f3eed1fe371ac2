-- ===== src/Http/Request/Continuation/Owner.antt =====
-- src/http/request/continuation.rs: a continuation owns its hold until one terminal operation
-- consumes it, and no method panics.
use ngx_rust.Prelude.{ℕ, ◌≡◌, ◌≢◌, ◌⊎◌, inl, true, false, Option, none, some, arith, ok, err}
use ngx_rust.Http.Request.{Native, Requests, main_raw}
use ngx_rust.Http.Request.Hold.{RequestHold, drop_hold}
use ngx_rust.Http.Request.Continuation.{
  RequestContinuation, panics, fails, consumed, Outcome, ensure_active, ensure_releasable_hold,
  release_for_resume, transfer_to_nginx, take, restore, cancel, drop_continuation, finalize,
  finalize_after_output, resume_declined, resume_preaccess, prepare_preaccess_resume,
}

-- Active with an active hold, or consumed with none.
abbrev pub IsOwner : RequestContinuation → Type 0
IsOwner c =
    ((h : RequestHold) × (c.consumed ≡ false) × (c.hold ≡ some h) × (h.active ≡ true))
    ⊎ ((c.consumed ≡ true) × (c.hold ≡ none))

-- The terminal operations.
pub data Terminal : Type 0 where
  cancels resumes_declined resumes_preaccess : Terminal
  finalizes finalizes_after_output : ℕ → Terminal

module _ (ngx : Native) where
  unfoldable pub perform : Terminal → RequestContinuation → Requests → Outcome
  perform cancels c w = cancel ngx c w
  perform resumes_declined c w = resume_declined ngx c w
  perform resumes_preaccess c w = resume_preaccess ngx c w
  perform (finalizes status) c w = finalize ngx c status w
  perform (finalizes_after_output status) c w = finalize_after_output ngx c status w

  -- Taking an active hold out of its slot succeeds only for the request and the main request that
  -- it was made for, while the main request is live; the slot is left empty, and the continuation
  -- owns the hold.
  pub take-IsOwner :
      (w : Requests) (h : RequestHold) (raw : ℕ) {c : RequestContinuation}
      {slot : Option RequestHold}
      → h.active ≡ true
      → take ngx w (some h) raw ≡ ok (c, slot)
      → IsOwner c
        × (c.hold ≡ some h)
        × (c.request ≡ h.request)
        × (slot ≡ none)
        × (main_raw ngx w raw ≡ ok h.main)
        × ((w h.main).count ≢ 0)
  unfolding take
  take-IsOwner w h raw a e = (
    inl (h, ground arith, ground arith, a),
    ground arith,
    ground arith,
    ground arith,
    ground arith,
    ground arith,
  )

  perform-ne-panics :
      (t : Terminal) (c : RequestContinuation) (w : Requests)
      → IsOwner c
      → perform t c w ≢ err panics
  unfolding perform cancel resume_declined resume_preaccess prepare_preaccess_resume finalize
      finalize_after_output ensure_active ensure_releasable_hold release_for_resume
      transfer_to_nginx
  perform-ne-panics cancels c w o = ground arith
  perform-ne-panics resumes_declined c w o = ground arith
  perform-ne-panics resumes_preaccess c w o = ground arith
  perform-ne-panics (finalizes status) c w o = ground arith
  perform-ne-panics (finalizes_after_output status) c w o = ground arith

  perform-ok :
      (t : Terminal) (c : RequestContinuation) (w : Requests) (c' : RequestContinuation)
      (w' : Requests)
      → perform t c w ≡ ok (c', w')
      → (c.consumed ≡ false) × (c'.consumed ≡ true) × (c'.hold ≡ none)
  unfolding perform cancel resume_declined resume_preaccess prepare_preaccess_resume finalize
      finalize_after_output ensure_active ensure_releasable_hold release_for_resume
      transfer_to_nginx
  perform-ok cancels c w c' w' e = ground arith
  perform-ok resumes_declined c w c' w' e = ground arith
  perform-ok resumes_preaccess c w c' w' e = ground arith
  perform-ok (finalizes status) c w c' w' e = ground arith
  perform-ok (finalizes_after_output status) c w c' w' e = ground arith

  -- No terminal operation of an owner panics, and one that succeeds was the first: the continuation
  -- was active, and is left consumed, with no hold.
  pub perform-once :
      (t : Terminal) (c : RequestContinuation) (w : Requests)
      → IsOwner c
      → (perform t c w ≢ err panics)
        × ((c' : RequestContinuation) (w' : Requests)
            → perform t c w ≡ ok (c', w')
            → (c.consumed ≡ false) × (c'.consumed ≡ true) × (c'.hold ≡ none))
  perform-once t c w o = (perform-ne-panics t c w o, perform-ok t c w)

  -- After a terminal operation every further one fails with `Consumed`, the hold cannot be
  -- restored, and dropping the continuation does nothing.
  pub perform-consumed :
      (t : Terminal) (c : RequestContinuation) (w : Requests) (slot : Option RequestHold)
      → IsOwner c
      → c.consumed ≡ true
      → (perform t c w ≡ err (fails consumed))
        × (restore c slot ≡ err consumed)
        × (drop_continuation ngx c w ≡ w)
  unfolding perform cancel resume_declined resume_preaccess finalize finalize_after_output
      ensure_active restore drop_continuation drop_hold
  perform-consumed cancels c w slot o d = ground arith
  perform-consumed _ c w slot o d = ground arith
