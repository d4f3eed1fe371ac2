-- ===== src/Http/Request/Hold.antt =====
-- src/http/request/continuation.rs and context.rs: one explicit reference on the main request,
-- retained by a delayed operation. A slot is the `Option<RequestHold>` of the context.
use ngx_rust.Prelude.{
  ℕ, ◌+◌, ◌-◌, ◌%◌, ◌^◌, ◌<◌, ◌≡◌, ◌≢◌, ◌↔◌, refl, ap, Bool, true, false, ◌&&◌, not, Option, none,
  some, arith, ltb, leb, ◌==◌, if◌then◌else◌, Result, ok, err, ◌>>=◌, ◌>>◌, fail_if, map_err,
}
use ngx_rust.Http.Request.{
  Native, Requests, RequestError, reference_count_overflow, write, set_count, main_raw,
}

pub data RequestHoldError : Type 0 where
  request : RequestError → RequestHoldError
  already_held missing foreign_request inactive_main count_overflow : RequestHoldError

pub record RequestHold : Type 0 where
  pub request : ℕ
  pub main : ℕ
  pub active : Bool

-- `u16::MAX as u32 - 1000`.
abbrev pub max_request_count_after_hold : ℕ
max_request_count_after_hold = 2 ^ 16 - 1 - 1000

abbrev pub is_some {ℓ} : {A : Type ℓ} → Option A → Bool
is_some none = false
is_some (some a) = true

module _ (ngx : Native) where
  unfoldable pub release_request_reference : ℕ → ℕ → Requests → Requests
  release_request_reference raw main w =
      let count = (w main).count in
      if (w main).pool == 0
      then w
      else (if ltb 1 count
          then set_count main (count - 1) w
          else (if count == 1 && not (ngx.request_terminated main w)
              then ngx.finalize_request raw ngx.done w
              else w))

  -- `RequestRefMut::hold`. A failure changes neither the requests nor the slot.
  unfoldable pub hold :
      Requests → ℕ → Option RequestHold → Result RequestHoldError (Requests × Option RequestHold)
  hold w raw slot = do
    fail_if (is_some slot) already_held
    main ← map_err request (main_raw ngx w raw)
    let count = (w main).count
    fail_if (count == 0) inactive_main
    fail_if (leb max_request_count_after_hold count) count_overflow
    ok (set_count main (count + 1) w, some (record { request = raw; main = main; active = true }))

  -- `RequestHold::release`, as its destructor runs it.
  unfoldable pub release : RequestHold → Requests → Requests
  release h w = if not h.active then w else release_request_reference h.request h.main w

  -- The destructor of a slot's content.
  unfoldable pub drop_hold : Option RequestHold → Requests → Requests
  unfolding release
  drop_hold none w = w
  drop_hold (some h) w = release h w

  -- `RequestHold::cancel`: the slot is left empty.
  unfoldable pub cancel : Option RequestHold → Requests → Bool × Option RequestHold × Requests
  cancel slot w = (is_some slot, none, drop_hold slot w)

  -- `RequestHold::disarm_for_cleanup`: the hold is dropped inactive.
  unfoldable pub disarm_for_cleanup :
      Option RequestHold → Requests → Bool × Option RequestHold × Requests
  disarm_for_cleanup none w = (false, none, w)
  disarm_for_cleanup (some h) w = (true, none, drop_hold (some (record h { active = false })) w)

  -- `retain_request_for_context_cancellation`.
  unfoldable pub retain_for_cancellation :
      ℕ → Requests → Result RequestError (Option (ℕ × ℕ) × Requests)
  retain_for_cancellation raw w = do
    main ← main_raw ngx w raw
    let count = (w main).count
    if count == 0
        then ok (none, w)
        else (if count == 2 ^ 16 - 1
            then err reference_count_overflow
            else ok (some (raw, main), set_count main (count + 1) w))

-- The requests with one more reference on `main`.
abbrev pub retained : ℕ → Requests → Requests
retained main w = write main (record (w main) { count = (w main).count + 1 }) w

set_count-retained :
    (main : ℕ) (w : Requests)
    → (w main).count < max_request_count_after_hold
    → set_count main ((w main).count + 1) w ≡ retained main w
set_count-retained main w h =
    let e : ((w main).count + 1) % 2 ^ 16 ≡ (w main).count + 1 = omega arith in
    ap (λ (n : ℕ). write main (record (w main) { count = n }) w) e

module _ (ngx : Native) (w : Requests) where
  hold-ok :
      (raw main : ℕ)
      → main_raw ngx w raw ≡ ok main
      → (w main).count ≢ 0
      → (w main).count < max_request_count_after_hold
      → hold ngx w raw none
        ≡ ok (retained main w, some (record { request = raw; main = main; active = true }))
  unfolding hold
  hold-ok raw main m n b = ground (arith, m, set_count-retained main w b)

  hold-cases :
      (raw : ℕ) (slot : Option RequestHold) (r : Result RequestError ℕ)
      → main_raw ngx w raw ≡ r
      → {w' : Requests} {slot' : Option RequestHold} → hold ngx w raw slot ≡ ok (w', slot')
      → (main : ℕ) × (r ≡ ok main)
        × (slot ≡ none)
        × ((w main).count ≢ 0)
        × ((w main).count < max_request_count_after_hold)
  unfolding hold
  hold-cases raw slot (err e) m h = absurd (ground arith)
  hold-cases raw slot (ok main) m h = (main, refl, ground arith, ground arith, ground arith)

  -- `hold` succeeds exactly when the slot is empty, the request has a main request `main`, and its
  -- count is neither zero nor in nginx's reserve; then the slot holds an active reference to it,
  -- its count is one higher, with no wrap of the 16-bit field, and nothing else is changed.
  pub hold_iff :
      (raw : ℕ) (slot : Option RequestHold) (w' : Requests) (slot' : Option RequestHold)
      → (hold ngx w raw slot ≡ ok (w', slot')) ↔ (
          (main : ℕ) × (slot ≡ none)
          × (main_raw ngx w raw ≡ ok main)
          × ((w main).count ≢ 0)
          × ((w main).count < max_request_count_after_hold)
          × (w' ≡ retained main w)
          × (slot' ≡ some (record { request = raw; main = main; active = true })))
  hold_iff raw slot w' slot' = (
    λ h.
        let (main, m, e, n, b) = hold-cases raw slot (main_raw ngx w raw) refl h in
        let k = hold-ok raw main m n b in
        let h' : hold ngx w raw none ≡ ok (w', slot') = rw e at h in
        (main, e, m, n, b, cc (k, h'), cc (k, h')),
    λ (main, e, m, n, b, k, l). rw (e, k, l) (hold-ok raw main m n b),
  )

  drop-retained :
      (raw main : ℕ) (p : ℕ)
      → (w main).pool ≢ 0
      → (w main).count ≢ 0
      → (w main).count < max_request_count_after_hold
      → drop_hold ngx
          (some (record { request = raw; main = main; active = true }))
          (retained main w)
          p
        ≡ w p
  unfolding drop_hold release_request_reference
  drop-retained raw main p a n b = ground arith

  -- Cancelling a fresh hold takes back exactly its reference: the requests are as they were before
  -- `hold`, if the main requests have their pools, and the slot is empty.
  pub cancel-hold :
      (raw : ℕ) (slot : Option RequestHold) (w' : Requests) (slot' : Option RequestHold)
      → ((p : ℕ) → (w p).pool ≢ 0)
      → hold ngx w raw slot ≡ ok (w', slot')
      → ((cancel ngx slot' w').0 ≡ true)
        × ((cancel ngx slot' w').1 ≡ none)
        × ((p : ℕ) → (cancel ngx slot' w').2 p ≡ w p)
  unfolding cancel
  cancel-hold raw slot w' slot' pools h =
      let (main, e, m, n, b, k, l) = (hold_iff raw slot w' slot').0 h in
      (rw l, refl, λ p. rw (k, l) (drop-retained raw main p (pools main) n b))
