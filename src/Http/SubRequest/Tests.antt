-- ===== src/Http/SubRequest/Tests.antt =====
-- A subrequest whose future waits for its handler.
use ngx_rust.Prelude.{ℕ, ◌≡◌, refl, true, false, none, [], ◌∷◌, ok, err}
use ngx_rust.Http.SubRequest.{SubRequestBuilder, Host, canceled, build, IsBuilt, build-IsBuilt}
use ngx_rust.Http.SubRequest.Future.{World, is_ready, fresh, poll, Run, run_handler, destroy_pool}
use ngx_rust.Http.SubRequest.Future.Resolved.{Reach, begins, later, polls, Reach-resolved}

abbrev builder : SubRequestBuilder
builder = record {
  uri = 47 ∷ [];
  args = none;
  flags = record { in_memory = true; waited = false; cloned = false; background = false };
  keep_body = false;
  headers_in_capacity = 4;
  handler = true;
}

abbrev host : Host
host = record {
  header_size = 56;
  pool = ok tt;
  body = 64;
  list_fails = false;
  handler_fails = false;
  post = 128;
  status = none;
  made = ok 256;
}

build-IsBuilt_example : IsBuilt host builder (build host builder)
build-IsBuilt_example = build-IsBuilt host builder

abbrev polled : World ℕ
polled = (poll 7 fresh).1

abbrev run : Run ℕ
run = record { enters = true; drops_future = false; output = 5 }

reached : Reach polled
reached = later begins (polls 7 refl)

Reach-resolved_example :
    (polled.handler ≡ true)
    × ((run_handler run polled).asleep ≡ none)
    × ((destroy_pool polled).asleep ≡ none)
    × (run.enters ≡ true
        → run.drops_future ≡ false
        → (poll 9 (run_handler run polled)).0 ≡ is_ready (ok 5))
    × (run.enters ≡ false → (poll 9 (run_handler run polled)).0 ≡ is_ready (err canceled))
    × ((poll 9 (destroy_pool polled)).0 ≡ is_ready (err canceled))
unfolding poll
Reach-resolved_example = Reach-resolved run 7 9 reached refl
