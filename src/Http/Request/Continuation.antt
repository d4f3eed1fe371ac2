-- ===== src/Http/Request/Continuation.antt =====
-- src/http/request/continuation.rs: the exclusive terminal owner of a request hold. A method takes
-- the continuation and the native requests; a failure leaves both as they were, so only success
-- returns new ones. `expect` on a missing hold is a panic, which is an outcome of its own.
pub mod Owner
pub mod Terminal
pub mod Filters
pub mod Phase
use ngx_rust.Prelude.{
  ℕ, ◌+◌, ◌-◌, ◌≤◌, ◌^◌, Bool, true, false, ◌&&◌, ◌||◌, not, Option, none, some, ltb, leb, ◌==◌,
  if◌then◌else◌, Result, ok, err, ◌>>=◌, ◌>>◌, fail_if, map_err,
}
use ngx_rust.Http.Filter.{HttpFilterError}
use ngx_rust.Http.Request.{
  Native, Request, Requests, RequestError, core_run_phases, write, set_count, main_raw,
  validate_terminal_operation,
}
use ngx_rust.Http.Request.Hold.{
  RequestHold, RequestHoldError, missing, foreign_request, inactive_main, already_held,
  release_request_reference, release, drop_hold, is_some,
}

pub data RequestPhaseResumeError : Type 0 where
  request : RequestError → RequestPhaseResumeError
  negative_phase_handler phase_handler_overflow : RequestPhaseResumeError

pub data RequestContinuationError : Type 0 where
  request : RequestError → RequestContinuationError
  phase : RequestPhaseResumeError → RequestContinuationError
  hold : RequestHoldError → RequestContinuationError
  consumed non_consuming_status : RequestContinuationError
  filter_already_continued header_already_continued : RequestContinuationError
  body_already_continued : RequestContinuationError
  filter : HttpFilterError → RequestContinuationError

pub data Fault : Type 0 where
  fails : RequestContinuationError → Fault
  panics : Fault

pub record RequestContinuation : Type 0 where
  pub request : ℕ
  pub hold : Option RequestHold
  pub consumed : Bool
  pub header_continued : Bool
  pub body_continued : Bool

abbrev pub Outcome : Type 0
Outcome = Result Fault (RequestContinuation × Requests)

-- `.expect("active continuation owns its request hold")`.
abbrev pub expect : Option RequestHold → Result Fault RequestHold
expect none = err panics
expect (some h) = ok h

unfoldable pub ensure_active : RequestContinuation → Result Fault (Unit {0})
ensure_active c = fail_if c.consumed (fails consumed)

unfoldable pub ensure_releasable_hold : RequestContinuation → Requests → Result Fault (Unit {0})
ensure_releasable_hold c w = do
  h ← expect c.hold
  fail_if (leb (w h.main).count 1) (fails (hold inactive_main))

unfoldable pub release_for_resume : RequestContinuation → Requests → Outcome
release_for_resume c w = do
  h ← expect c.hold
  ok (record c { hold = none; consumed = true }, set_count h.main ((w h.main).count - 1) w)

unfoldable pub transfer_to_nginx : RequestContinuation → Result Fault RequestContinuation
transfer_to_nginx c = do h ← expect c.hold; ok (record c { hold = none; consumed = true })

-- `restore`: the slot that is filled. A failure returns the continuation unchanged.
unfoldable pub restore :
    RequestContinuation
    → Option RequestHold
    → Result RequestContinuationError (RequestContinuation × Option RequestHold)
restore c slot = do
  fail_if c.consumed consumed
  fail_if (c.header_continued || c.body_continued) filter_already_continued
  fail_if (is_some slot) (hold already_held)
  ok (record c { hold = none; consumed = true }, c.hold)

module _ (ngx : Native) where
  -- `RequestHold::take`: the continuation, and the slot that is left.
  unfoldable pub take :
      Requests
      → Option RequestHold
      → ℕ
      → Result RequestHoldError (RequestContinuation × Option RequestHold)
  take w none raw = err missing
  take w (some current) raw = do
    main ← map_err RequestHoldError.request (main_raw ngx w raw)
    fail_if (not (current.request == raw) || not (current.main == main)) foreign_request
    fail_if ((w main).count == 0) inactive_main
    ok (
      record {
        request = raw;
        hold = some current;
        consumed = false;
        header_continued = false;
        body_continued = false;
      },
      none,
    )

  unfoldable pub cancel : RequestContinuation → Requests → Outcome
  cancel c w = do
    ensure_active c
    ok (record c { hold = none; consumed = true }, drop_hold ngx c.hold w)

  -- The destructor, which drops the hold that is left.
  unfoldable pub drop_continuation : RequestContinuation → Requests → Requests
  drop_continuation c w = drop_hold ngx c.hold w

  abbrev pub validate : RequestContinuation → Requests → Result Fault (Unit {0})
  validate c w = map_err (λ e. fails (request e)) (validate_terminal_operation ngx w c.request)

  unfoldable pub finalize : RequestContinuation → ℕ → Requests → Outcome
  finalize c status w = do
    ensure_active c
    validate c w
    fail_if (status == ngx.declined) (fails non_consuming_status)
    c' ← transfer_to_nginx c
    ok (c', ngx.finalize_request c.request status w)

  unfoldable pub finalize_after_output : RequestContinuation → ℕ → Requests → Outcome
  finalize_after_output c status w = do
    ensure_active c
    validate c w
    fail_if (status == ngx.declined) (fails non_consuming_status)
    h ← expect c.hold
    let count = (w h.main).count
    let final_subrequest = not (h.request == h.main) && count == 2
    (c', w') ←
        if ltb 1 count && not final_subrequest
        then release_for_resume c w
        else (transfer_to_nginx c >>= λ c'. ok (c', w))
    ok (c', ngx.finalize_request c.request status w')

  unfoldable pub resume_declined : RequestContinuation → Requests → Outcome
  resume_declined c w = do
    ensure_active c
    ensure_releasable_hold c w
    validate c w
    (c', w') ← release_for_resume c w
    ok (c', ngx.finalize_request c.request ngx.declined w')

  -- `RequestRefMut::prepare_preaccess_resume`. The pattern of an `ngx_int_t` is negative from
  -- 2 ^ 63 on, and the next of 2 ^ 63 - 1 overflows.
  unfoldable pub prepare_preaccess_resume : Requests → ℕ → Result RequestPhaseResumeError Requests
  prepare_preaccess_resume w raw = do
    map_err RequestPhaseResumeError.request (validate_terminal_operation ngx w raw)
    let phase_handler = (w raw).phase_handler
    fail_if (leb (2 ^ 63) phase_handler) negative_phase_handler
    fail_if (phase_handler == 2 ^ 63 - 1) phase_handler_overflow
    ok (
        write raw
          (record (w raw) {
            phase_handler = phase_handler + 1;
            write_event_handler = core_run_phases;
          })
          w)

  unfoldable pub resume_preaccess : RequestContinuation → Requests → Outcome
  resume_preaccess c w = do
    ensure_active c
    ensure_releasable_hold c w
    w₁ ← map_err (λ e. fails (phase e)) (prepare_preaccess_resume w c.request)
    (c', w₂) ← release_for_resume c w₁
    ok (c', ngx.run_phases c.request w₂)
