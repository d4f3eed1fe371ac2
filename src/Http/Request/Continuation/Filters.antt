-- ===== src/Http/Request/Continuation/Filters.antt =====
-- src/http/request/continuation.rs: the saved filters of a module, which a delayed terminal path
-- continues with once each.
use ngx_rust.Prelude.{
  ℕ, ◌+◌, ◌≤◌, ◌≡◌, refl, Bool, true, false, Option, List, [], ◌∷◌, Result, ok, err, ◌>>=◌, ◌>>◌,
  fail_if, map_err, arith,
}
use ngx_rust.Http.Filter.{Filter, FilterState}
use ngx_rust.Http.Filter.Run.{Part, header_part, body_part, saved_next}
use ngx_rust.Http.Request.{Native, Requests}
use ngx_rust.Http.Request.Hold.{RequestHold}
use ngx_rust.Http.Request.Continuation.{
  RequestContinuation, RequestContinuationError, Fault, fails, Outcome, ensure_active, validate,
  filter, header_already_continued, body_already_continued, restore, cancel, resume_declined,
  resume_preaccess, prepare_preaccess_resume, finalize, finalize_after_output,
  ensure_releasable_hold, release_for_resume, transfer_to_nginx,
}
use ngx_rust.Http.Request.Continuation.Owner.{
  Terminal, cancels, resumes_declined, resumes_preaccess, finalizes, finalizes_after_output,
  perform,
}

abbrev pub is_continued : Part → RequestContinuation → Bool
is_continued header_part c = c.header_continued
is_continued body_part c = c.body_continued

abbrev already_continued : Part → RequestContinuationError
already_continued header_part = header_already_continued
already_continued body_part = body_already_continued

abbrev mark_continued : Part → RequestContinuation → RequestContinuation
mark_continued header_part c = record c { header_continued = true }
mark_continued body_part c = record c { body_continued = true }

-- What a delayed path does with its continuation: it continues with a saved filter of a slot, or it
-- tries to end.
pub data Use : Type 0 where
  continues : Part → FilterState → Use
  ends : Terminal → Use

-- A path so far: its continuation, the requests, and the parts that were continued.
pub record State : Type 0 where
  pub owner : RequestContinuation
  pub requests : Requests
  pub calls : List Part

module _ (ngx : Native) (run : Filter → Requests → ℕ × Requests) where
  abbrev continued_with :
      Part → ℕ × Requests → RequestContinuation → Result Fault (RequestContinuation × Requests × ℕ)
  continued_with part (status, w) c = ok (mark_continued part c, w, status)

  -- `call_next_header` and `call_next_body`.
  unfoldable pub call_next :
      Part
      → FilterState
      → RequestContinuation
      → Requests
      → Result Fault (RequestContinuation × Requests × ℕ)
  call_next part slot c w = do
    ensure_active c
    fail_if (is_continued part c) (fails (already_continued part))
    validate ngx c w
    next ← map_err (λ e. fails (filter e)) (saved_next part slot)
    continued_with part (run next w) c

  abbrev pub start : RequestContinuation → Requests → State
  start c w = record { owner = c; requests = w; calls = [] }

  abbrev called_at : Part → Result Fault (RequestContinuation × Requests × ℕ) → State → State
  called_at part (err e) s = s
  called_at part (ok (c, w, status)) s = record { owner = c; requests = w; calls = part ∷ s.calls }

  abbrev pub ended_at : Outcome → State → State
  ended_at (err e) s = s
  ended_at (ok (c, w)) s = record s { owner = c; requests = w }

  unfoldable pub step : Use → State → State
  step (continues part slot) s = called_at part (call_next part slot s.owner s.requests) s
  step (ends t) s = ended_at (perform ngx t s.owner s.requests) s

  unfoldable pub steps : List Use → State → State
  steps [] s = s
  steps (u ∷ us) s = steps us (step u s)

abbrev is_part : Part → Part → ℕ
is_part header_part header_part = 1
is_part header_part body_part = 0
is_part body_part header_part = 0
is_part body_part body_part = 1

abbrev pub count_part : Part → List Part → ℕ
count_part part [] = 0
count_part part (q ∷ qs) = is_part part q + count_part part qs

abbrev pub flag : Bool → ℕ
flag true = 1
flag false = 0

-- Each part was continued as often as its flag says.
abbrev pub IsOnce : List Part → RequestContinuation → Type 0
IsOnce calls c =
    (count_part header_part calls ≡ flag c.header_continued)
    × (count_part body_part calls ≡ flag c.body_continued)

module _ (ngx : Native) (run : Filter → Requests → ℕ × Requests) where
  call_next-IsOnce :
      (part : Part) (slot : FilterState) (s : State)
      → IsOnce s.calls s.owner
      → IsOnce
          (step ngx run (continues part slot) s).calls
          (step ngx run (continues part slot) s).owner
  unfolding step call_next ensure_active saved_next
  call_next-IsOnce header_part slot s h = ground arith
  call_next-IsOnce body_part slot s h = ground arith

  -- A terminal operation keeps the flags.
  perform-flags :
      (t : Terminal) (c : RequestContinuation) (w : Requests) (c' : RequestContinuation)
      (w' : Requests)
      → perform ngx t c w ≡ ok (c', w')
      → (c'.header_continued ≡ c.header_continued) × (c'.body_continued ≡ c.body_continued)
  unfolding perform cancel resume_declined resume_preaccess prepare_preaccess_resume finalize
      finalize_after_output ensure_active ensure_releasable_hold release_for_resume
      transfer_to_nginx
  perform-flags cancels c w c' w' e = ground arith
  perform-flags resumes_declined c w c' w' e = ground arith
  perform-flags resumes_preaccess c w c' w' e = ground arith
  perform-flags (finalizes status) c w c' w' e = ground arith
  perform-flags (finalizes_after_output status) c w c' w' e = ground arith

  ends-IsOnce :
      (t : Terminal) (s : State)
      → IsOnce s.calls s.owner
      → IsOnce (step ngx run (ends t) s).calls (step ngx run (ends t) s).owner
  unfolding step
  ends-IsOnce t s h = at (perform ngx t s.owner s.requests) refl
    where
      at :
          (o : Outcome)
          → perform ngx t s.owner s.requests ≡ o
          → IsOnce (ended_at ngx run o s).calls (ended_at ngx run o s).owner
      at (err e) q = h
      at (ok (c', w')) q = ground (arith, perform-flags t s.owner s.requests c' w' q)

  steps-IsOnce :
      (us : List Use) (s : State)
      → IsOnce s.calls s.owner
      → IsOnce (steps ngx run us s).calls (steps ngx run us s).owner
  unfolding steps
  steps-IsOnce [] s h = h
  steps-IsOnce (continues part slot ∷ us) s h =
      steps-IsOnce us (step ngx run (continues part slot) s) (call_next-IsOnce part slot s h)
  steps-IsOnce (ends t ∷ us) s h = steps-IsOnce us (step ngx run (ends t) s) (ends-IsOnce t s h)

  -- Whatever a delayed path tries, and with whatever slots, from a continuation that has continued
  -- with neither saved filter, each of the two is continued with at most once, and after either the
  -- hold cannot be put back in a slot.
  pub steps-once :
      (us : List Use) (c : RequestContinuation) (w : Requests) (slot : Option RequestHold)
      (c' : RequestContinuation) (slot' : Option RequestHold)
      → c.header_continued ≡ false
      → c.body_continued ≡ false
      → (count_part header_part (steps ngx run us (start ngx run c w)).calls ≤ 1)
        × (count_part body_part (steps ngx run us (start ngx run c w)).calls ≤ 1)
        × (restore (steps ngx run us (start ngx run c w)).owner slot ≡ ok (c', slot')
            → (steps ngx run us (start ngx run c w)).calls ≡ [])
  unfolding restore
  steps-once us c w slot c' slot' h b =
      let s = steps ngx run us (start ngx run c w) in
      let o : IsOnce s.calls s.owner = steps-IsOnce us (start ngx run c w) (ground arith) in
      (ground arith, ground arith, λ e. no_calls s.calls (ground arith) (ground arith))
    where
      no_calls :
          (calls : List Part)
          → count_part header_part calls ≡ 0
          → count_part body_part calls ≡ 0
          → calls ≡ []
      no_calls [] x y = refl
      no_calls (header_part ∷ qs) x y = absurd (omega arith)
      no_calls (body_part ∷ qs) x y = absurd (omega arith)
