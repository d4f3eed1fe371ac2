-- ===== src/Http/Request/Continuation/Terminal.antt =====
-- src/http/request/continuation.rs: what each terminal operation does to the reference count of
-- the main request before it enters nginx.
use mathlib.Core.Path.{fun_ext}
use ngx_rust.Prelude.{
  ℕ, ◌+◌, ◌-◌, ◌^◌, ◌%◌, ◌≤◌, ◌<◌, ◌≡◌, ◌≢◌, ◌⊎◌, inl, inr, refl, ap, ◌∙◌, ◌↔◌, Bool, true, false,
  ◌&&◌, not, ltb, ◌==◌, Bool-cases, none, some, arith, ok, err,
}
use ngx_rust.Http.Request.{
  Native, Requests, core_run_phases, write, set_count, validate_terminal_operation,
}
use ngx_rust.Http.Request.Hold.{RequestHold}
use ngx_rust.Http.Request.Continuation.{
  RequestContinuation, fails, non_consuming_status, ensure_active, ensure_releasable_hold,
  release_for_resume, transfer_to_nginx, finalize, finalize_after_output, resume_preaccess,
  prepare_preaccess_resume,
}

-- The request at `raw` set to go on with the next phase handler.
abbrev pub advanced : ℕ → Requests → Requests
advanced raw w =
    write raw
      (record (w raw) {
        phase_handler = (w raw).phase_handler + 1;
        write_event_handler = core_run_phases;
      })
      w

-- `w'` is `w` with the count of `main` set to `n`.
abbrev pub with_count : ℕ → ℕ → Requests → Requests
with_count main n w = write main (record (w main) { count = n }) w

with_count-same : (main : ℕ) (w : Requests) → with_count main (w main).count w ≡ w
with_count-same main w = fun_ext (λ p. ground arith)

-- Whether the retained reference is released before nginx is entered.
abbrev releases : RequestHold → ℕ → Bool
releases h count = ltb 1 count && not (not (h.request == h.main) && count == 2)

module _ (ngx : Native) (c : RequestContinuation) (h : RequestHold) (w : Requests)
    (held : c.hold ≡ some h) where
  after_output-released :
      (status : ℕ) {c' : RequestContinuation} {w' : Requests}
      → releases h (w h.main).count ≡ true
      → finalize_after_output ngx c status w ≡ ok (c', w')
      → (w' ≡ ngx.finalize_request c.request status (set_count h.main ((w h.main).count - 1) w))
        × (status ≢ ngx.declined)
  unfolding finalize_after_output ensure_active release_for_resume
  after_output-released status r e = ground arith

  after_output-kept :
      (status : ℕ) {c' : RequestContinuation} {w' : Requests}
      → releases h (w h.main).count ≡ false
      → finalize_after_output ngx c status w ≡ ok (c', w')
      → (w' ≡ ngx.finalize_request c.request status w) × (status ≢ ngx.declined)
  unfolding finalize_after_output ensure_active transfer_to_nginx
  after_output-kept status r e = ground arith

  -- Finalizing after output enters nginx with the main request's count as it was or one lower, and
  -- nothing else changed. It is lowered only where an ordinary reference remains: nginx finds at
  -- least one reference, and for a subrequest of a main request with two or more, at least two.
  -- The status is not `NGX_DECLINED`. The main request is live, and its count fits its field.
  pub finalize_after_output-references :
      (status : ℕ) {c' : RequestContinuation} {w' : Requests}
      → (w h.main).count < 2 ^ 16
      → (w h.main).count ≢ 0
      → finalize_after_output ngx c status w ≡ ok (c', w')
      → (n : ℕ) × (w' ≡ ngx.finalize_request c.request status (with_count h.main n w))
        × (status ≢ ngx.declined)
        × ((n ≡ (w h.main).count) ⊎ (n + 1 ≡ (w h.main).count))
        × (1 ≤ n)
        × (h.request ≢ h.main → 2 ≤ (w h.main).count → 2 ≤ n)
  finalize_after_output-references status b z e = elim (Bool-cases (releases h (w h.main).count)) [
    | inl r ↦
        let (k, d) = after_output-released status r e in
        let m : ((w h.main).count - 1) % 2 ^ 16 ≡ (w h.main).count - 1 = omega arith in
        (
          (w h.main).count - 1,
          k ∙ ap (λ n. ngx.finalize_request c.request status (with_count h.main n w)) m,
          d,
          inr (ground arith),
          ground arith,
          λ s t. ground arith,
        )
    | inr r ↦
        let (k, d) = after_output-kept status r e in
        ((w h.main).count, rw (with_count-same h.main w) k, d, inl refl, omega arith, λ s t. t)
  ]

  -- Finalizing an active continuation with a status other than `NGX_DECLINED` succeeds for a valid
  -- request, and enters nginx with the requests untouched: the reference goes to nginx.
  pub finalize-transfers :
      (status : ℕ)
      → c.consumed ≡ false
      → validate_terminal_operation ngx w c.request ≡ ok tt
      → (status ≢ ngx.declined
          → finalize ngx c status w
            ≡ ok (
              record c { hold = none; consumed = true },
              ngx.finalize_request c.request status w,
            ))
        × (finalize ngx c ngx.declined w ≡ err (fails non_consuming_status))
        × (finalize_after_output ngx c ngx.declined w ≡ err (fails non_consuming_status))
  unfolding finalize finalize_after_output ensure_active transfer_to_nginx
  finalize-transfers status a v = (λ n. ground arith, ground arith, ground arith)

  resumed :
      (raw : ℕ)
      → (w h.main).count < 2 ^ 16
      → set_count h.main ((advanced raw w h.main).count - 1) (advanced raw w)
        ≡ with_count h.main ((w h.main).count - 1) (advanced raw w)
  resumed raw b =
      let k : (advanced raw w h.main).count ≡ (w h.main).count = ground arith in
      let e : ((advanced raw w h.main).count - 1) % 2 ^ 16 ≡ (w h.main).count - 1 =
        omega (arith, k) in
      ap (λ n. with_count h.main n (advanced raw w)) e

  resume_preaccess-ok :
      c.consumed ≡ false
      → 2 ≤ (w h.main).count
      → (w h.main).count < 2 ^ 16
      → validate_terminal_operation ngx w c.request ≡ ok tt
      → (w c.request).phase_handler < 2 ^ 63 - 1
      → resume_preaccess ngx c w
        ≡ ok (
          record c { hold = none; consumed = true },
          ngx.run_phases c.request
              (with_count h.main ((w h.main).count - 1) (advanced c.request w)),
        )
  unfolding resume_preaccess ensure_active ensure_releasable_hold prepare_preaccess_resume
      release_for_resume
  resume_preaccess-ok a n b v p = rw (← resumed c.request b) (ground arith)

  resume_preaccess-needs :
      (r : RequestContinuation × Requests)
      → resume_preaccess ngx c w ≡ ok r
      → (c.consumed ≡ false)
        × (2 ≤ (w h.main).count)
        × (validate_terminal_operation ngx w c.request ≡ ok tt)
        × ((w c.request).phase_handler < 2 ^ 63 - 1)
  unfolding resume_preaccess ensure_active ensure_releasable_hold prepare_preaccess_resume
      release_for_resume
  resume_preaccess-needs r e = ground arith

  -- Resuming the PREACCESS phase succeeds exactly on an active continuation whose main request has
  -- a reference beside the hold, for a valid request with a phase handler that has a successor. It
  -- runs nginx's phases with the handler advanced by one, the phase runner installed as the write
  -- handler, and the count of the main request one lower.
  pub resume_preaccess-advances :
      (c' : RequestContinuation) (w' : Requests)
      → (w h.main).count < 2 ^ 16
      → (resume_preaccess ngx c w ≡ ok (c', w')) ↔ (
          (c.consumed ≡ false)
          × (2 ≤ (w h.main).count)
          × (validate_terminal_operation ngx w c.request ≡ ok tt)
          × ((w c.request).phase_handler < 2 ^ 63 - 1)
          × (c' ≡ record c { hold = none; consumed = true })
          × (w'
              ≡ ngx.run_phases c.request
                  (with_count h.main ((w h.main).count - 1) (advanced c.request w))))
  resume_preaccess-advances c' w' b = (
    λ e.
        let (a, n, v, p) = resume_preaccess-needs (c', w') e in
        let k = resume_preaccess-ok a n b v p in (a, n, v, p, cc (k, e), cc (k, e)),
    λ (a, n, v, p, e, k). rw (e, k) (resume_preaccess-ok a n b v p),
  )
