-- ===== src/Async/Resolver/Tests.antt =====
-- A name with one address: a resolution that waits, and the copy of its result.
use ngx_rust.Prelude.{
  ℕ, ◌+◌, ◌≤◌, ◌≡◌, ◌≢◌, refl, true, false, none, some, List, [], ◌∷◌, ok, arith,
}
use ngx_rust.Async.Resolver.{World, Request, begins, queued, new, poll, handler, is_ready}
use ngx_rust.Async.Resolver.Lifecycle.{
  flag, is_some, Reach, makes, later, polls, Reach-woken, Reach-freed,
}
use ngx_rust.Async.Resolver.Copy.{Context, ResolvedAddr, Platform, copy_result}
use ngx_rust.Async.Resolver.Copy.Exact.{copy_result_iff}

abbrev request : Request (List ℕ)
request = record {
  copies_fail = false;
  pool_fails = false;
  owner_fails = false;
  start = begins 64;
  lookup = queued;
}

abbrev polled : World (List ℕ)
polled = (poll 7 (new request).1).1

reached : Reach polled
unfolding new
reached = later (makes request) (polls 7 refl)

Reach-woken_example :
    (c : ℕ) × (polled.context ≡ some c)
    × (polled.handled ≡ true)
    × (c ≢ 0
        → ((handler c (ok (1 ∷ [])) polled).asleep ≡ none)
          × ((handler c (ok (1 ∷ [])) polled).freed ≡ polled.freed + 1)
          × ((poll 7 (handler c (ok (1 ∷ [])) polled)).0 ≡ is_ready (ok (1 ∷ []))))
unfolding new poll
Reach-woken_example = Reach-woken (ok (1 ∷ [])) 7 7 reached refl

Reach-freed_example :
    (polled.freed + polled.forgotten + flag (is_some polled.context) ≡ polled.begun)
    × (polled.owner_alive ≡ false → polled.freed + polled.forgotten ≡ polled.begun)
    × (polled.delivered ≤ 1)
Reach-freed_example = Reach-freed reached

abbrev platform : Platform
platform = record {
  codes = record {
    formerr = 1;
    servfail = 2;
    nxdomain = 3;
    notimp = 4;
    refuses = 5;
    timedout = 110;
  };
  family_size = 2;
  storage_size = 128;
  addr_size = 40;
  memory = λ a. a;
  utf8 = λ bs. bs;
  pool_is_valid = true;
  reserves = λ n. true;
  has_room = λ i. true;
  has_name_room = λ i. true;
}

abbrev context : Context
context = record {
  state = 0;
  name = record { at = 8; len = 1 };
  naddrs = 1;
  addrs = 256;
  addr = λ i. record { sockaddr = 300; socklen = 2; name = record { at = 8; len = 1 } };
}

abbrev copies : List ResolvedAddr
copies = record { socket_address = 300 ∷ 301 ∷ []; socklen = 2; host_name = 8 ∷ [] } ∷ []

copy_result_iff_example : copy_result platform context ≡ ok copies
copy_result_iff_example = (copy_result_iff platform context copies).1 (
  refl,
  λ n. (omega arith, omega arith),
  refl,
  refl,
  ((omega arith, omega arith, omega arith, refl, λ n. (omega arith, omega arith, refl)), tt),
  refl,
)
