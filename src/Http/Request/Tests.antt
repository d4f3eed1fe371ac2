-- ===== src/Http/Request/Tests.antt =====
-- A main request with one subrequest: runs of holds and continuations, and the theorems at them.
use ngx_rust.Prelude.{
  ℕ, ◌+◌, ◌-◌, ◌^◌, ◌≤◌, ◌≡◌, ◌≢◌, ◌⊎◌, inl, refl, true, false, none, some, arith, ok, err, ◌==◌,
  if◌then◌else◌, List, [], ◌∷◌,
}
use ngx_rust.Http.Request.{
  Native, Request, Requests, other, find_parent, main_raw, connection_raw,
  validate_terminal_operation,
}
use ngx_rust.Http.Request.Root.{IsRootOf, main_raw_iff}
use ngx_rust.Http.Request.Hold.{RequestHold, hold, retained, hold_iff}
use ngx_rust.Http.Request.Continuation.{
  RequestContinuation, panics, take, finalize_after_output, ensure_active, transfer_to_nginx,
  restore,
}
use ngx_rust.Http.Filter.{Filter}
use ngx_rust.Http.Filter.Run.{header_part, body_part}
use ngx_rust.Http.Request.Continuation.Filters.{
  Use, continues, ends, steps, start, count_part, steps-once,
}
use ngx_rust.Http.Request.Continuation.Phase.{
  Posting, Posts, resume_held, IsResumed, IsUndone, resume_held-or_IsUndone,
}
use ngx_rust.Http.Request.Continuation.Owner.{IsOwner, finalizes, perform, perform-once}

abbrev native : Native
native = record {
  http_module = 0x50545448;
  max_subrequests = 50;
  declined = 2 ^ 64 - 5;
  done = 2 ^ 64 - 4;
  request_align = 8;
  connection_align = 8;
  request_terminated = λ p w. false;
  finalize_request = λ p s w. w;
  run_phases = λ p w. w;
}

abbrev main_request : Request
main_request = record {
  signature = 0x50545448;
  main = 64;
  parent = 0;
  count = 2;
  pool = 8;
  connection = 512;
  phase_handler = 3;
  write_event_handler = other 0;
}

abbrev subrequest : Request
subrequest = record main_request { parent = 64; count = 1 }

-- The main request at 64, and its subrequest everywhere else.
abbrev requests : Requests
requests p = if p == 64 then main_request else subrequest

subrequest_root : main_raw native requests 128 ≡ ok 64
unfolding main_raw find_parent
subrequest_root = refl

main_raw_iff_example : IsRootOf native requests 128 64
main_raw_iff_example = (main_raw_iff native requests 128 64).0 subrequest_root

fresh_hold : RequestHold
fresh_hold = record { request = 128; main = 64; active = true }

hold_iff_example : hold native requests 128 none ≡ ok (retained 64 requests, some fresh_hold)
unfolding fresh_hold
hold_iff_example =
    (hold_iff native requests 128 none (retained 64 requests) (some fresh_hold)).1
      (64, refl, subrequest_root, omega arith, omega arith, refl, refl)

pools : (p : ℕ) → (requests p).pool ≢ 0
pools p = ground arith

abbrev active : RequestContinuation
active = record {
  request = 128;
  hold = some (record { request = 128; main = 64; active = true });
  consumed = false;
  header_continued = false;
  body_continued = false;
}

abbrev spent : RequestContinuation
spent = record active { hold = none; consumed = true }

active-IsOwner : IsOwner active
active-IsOwner = inl (record { request = 128; main = 64; active = true }, refl, refl, refl)

taken : take native requests (some fresh_hold) 128 ≡ ok (active, none)
unfolding take main_raw find_parent fresh_hold
taken = refl

perform-once_example :
    (perform native (finalizes 200) active requests ≢ err panics)
    × ((c' : RequestContinuation) (w' : Requests)
        → perform native (finalizes 200) active requests ≡ ok (c', w')
        → (active.consumed ≡ false) × (c'.consumed ≡ true) × (c'.hold ≡ none))
perform-once_example = perform-once native (finalizes 200) active requests active-IsOwner

after_output : finalize_after_output native active 200 requests ≡ ok (spent, requests)
unfolding finalize_after_output ensure_active validate_terminal_operation main_raw find_parent
    connection_raw transfer_to_nginx
after_output = refl

valid : validate_terminal_operation native requests 128 ≡ ok tt
unfolding validate_terminal_operation main_raw find_parent connection_raw
valid = refl

abbrev posting : Posting
posting = record {
  event_align = 8;
  connection_data = λ c. 64;
  write_event = λ c. c + 8;
  post_request = λ r q p. (true, p);
  post_event = λ e p. record p { next_events = e ∷ p.next_events };
}

abbrev no_posts : Posts
no_posts = record { next_events = []; posted_requests = [] }

resume_held-or_IsUndone_example :
    IsResumed native posting fresh_hold 128 requests no_posts
      (resume_held native posting (some fresh_hold) 128 requests no_posts)
    ⊎ IsUndone native posting fresh_hold requests
        (resume_held native posting (some fresh_hold) 128 requests no_posts)
        64
resume_held-or_IsUndone_example =
    resume_held-or_IsUndone native posting fresh_hold 128 requests no_posts 64

abbrev uses : List Use
uses =
    continues header_part
      (record { header = some (Filter.native 1); body = none; preparation = none })
    ∷ continues header_part
        (record { header = some (Filter.native 1); body = none; preparation = none })
    ∷ ends (finalizes 200)
    ∷ []

abbrev filter_runs : Filter → Requests → ℕ × Requests
filter_runs f w = (0, w)

steps-once_example :
    (count_part header_part
        (steps native filter_runs uses (start native filter_runs active requests)).calls
      ≤ 1)
    × (count_part body_part
          (steps native filter_runs uses (start native filter_runs active requests)).calls
        ≤ 1)
    × (restore (steps native filter_runs uses (start native filter_runs active requests)).owner none
          ≡ ok (active, none)
        → (steps native filter_runs uses (start native filter_runs active requests)).calls ≡ [])
steps-once_example = steps-once native filter_runs uses active requests none active none refl refl
