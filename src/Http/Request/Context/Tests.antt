-- ===== src/Http/Request/Context/Tests.antt =====
-- Two registrations, of which the second is stale, and a read of the client's body.
use ngx_rust.Prelude.{◌≡◌, ◌≢◌, refl, true, false, none, [], ◌∷◌, arith, put}
use ngx_rust.Http.Request.Context.{
  Registrations, World, stale, missing, has_stale, cancel_stale, cancel_stale_request_contexts,
  register_client_body_read, take_client_body_read,
}
use ngx_rust.Http.Request.Context.Reads.{Run, unchanged, sweeps, register_client_body_read-taken}
use ngx_rust.Http.Request.Context.Sweep.{cancel_stale-IsSwept}

abbrev registrations : Registrations
registrations = record { slot_of = λ a. a; context_of = λ a. a }

abbrev world : World
world = record {
  first = 8;
  next = put 8 16 (λ a. 0);
  active = λ a. true;
  slots = put 8 8 (λ a. 0);
  cancelled = [];
  generation = 3;
  next_client_body_read_id = 1;
  client_body_read = none;
}

cancel_stale-IsSwept_example :
    let w' = (cancel_stale registrations 3 world).1 in
    (true ≡ true → true ≡ true → world.slots 16 ≢ 16 → w'.active 16 ≡ false)
    × (true ≡ false → w'.active 16 ≡ true)
    × (world.slots 16 ≡ 16 → w'.active 16 ≡ true)
    × (w'.slots ≡ world.slots)
    × (w'.next ≡ world.next)
    × (w'.first ≡ 8)
    × (true ≡ true → w'.active 16 ≡ true → w'.slots 16 ≡ 16)
    × (has_stale registrations 3 8 w' ≡ false)
unfolding put
cancel_stale-IsSwept_example =
    cancel_stale-IsSwept registrations 3 (8 ∷ 16 ∷ []) world 16
      (refl, omega arith, (refl, omega arith, refl)) (omega arith)

abbrev reading : World
reading = (register_client_body_read 64 world).1

abbrev swept : World
swept = cancel_stale_request_contexts registrations 3 reading

run : Run registrations reading 1 swept
unfolding put register_client_body_read
run =
    sweeps 3 (8 ∷ 16 ∷ []) 16 unchanged (refl, omega arith, (refl, omega arith, refl)) (omega arith)
      refl refl (omega arith)

register_client_body_read-taken_example :
    ((take_client_body_read 64 swept).0 ≡ stale)
    × ((take_client_body_read 64 (take_client_body_read 64 swept).1).0 ≡ missing)
unfolding register_client_body_read
register_client_body_read-taken_example =
    register_client_body_read-taken registrations 64 1 1 world reading swept (omega arith)
      (omega arith) refl run
