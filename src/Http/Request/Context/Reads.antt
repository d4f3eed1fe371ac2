-- ===== src/Http/Request/Context/Reads.antt =====
-- src/http/request/context.rs: which read of a client's body a callback belongs to.
use ngx_rust.Prelude.{
  ℕ, suc, ◌+◌, ◌%◌, ◌^◌, ◌<◌, ◌≡◌, ◌≢◌, refl, true, some, List, ◌==◌, if◌then◌else◌, put, length,
  arith, Bool-cases, ==_iff, inl, inr,
}
use ngx_rust.Http.Request.Context.{
  Registrations, World, current, stale, missing, cancel_stale_request_contexts, advance_generation,
  advance_request_generation, register_client_body_read, take_client_body_read,
}
use ngx_rust.Http.Request.Context.Sweep.{
  Chain, is_in, cancel_stale-SameReads, cancel_stale-found, cancel_stale-none,
}

module _ (r : Registrations) where
  -- What happens to a request between two worlds, while `n` of its sweeps find an outdated context
  -- or internal redirects end all of them: a sweep meets the list `rs` with more fuel than it needs.
  pub data Run (u : World) : ℕ → World → Type 0 where
    unchanged : Run u 0 u
    sweeps :
        {n : ℕ} {w : World} (fuel : ℕ) (rs : List ℕ) (k : ℕ)
        → Run u n w
        → Chain w.next w.first rs
        → length rs < fuel
        → is_in k rs ≡ true
        → w.active k ≡ true
        → w.slots (r.slot_of k) ≢ r.context_of k
        → Run u (suc n) (cancel_stale_request_contexts r fuel w)
    sweeps_none :
        {n : ℕ} {w : World} (fuel : ℕ) (rs : List ℕ)
        → Run u n w
        → Chain w.next w.first rs
        → length rs < fuel
        → ((k : ℕ) → is_in k rs ≡ true → w.active k ≡ true → w.slots (r.slot_of k) ≡ r.context_of k)
        → Run u n (cancel_stale_request_contexts r fuel w)
    redirects : {n : ℕ} {w : World} → Run u n w → Run u (suc n) (advance_request_generation w)
    assigns :
        {n : ℕ} {w : World} (slot context : ℕ)
        → Run u n w
        → Run u n (record w { slots = put slot context w.slots })

  Run-generation :
      {u : World} (n : ℕ) {w : World}
      → u.generation < 2 ^ 64
      → Run u n w
      → (w.generation ≡ (u.generation + n) % 2 ^ 64) × (w.client_body_read ≡ u.client_body_read)
  unfolding cancel_stale_request_contexts advance_generation advance_request_generation
  Run-generation n lt unchanged = (omega (arith, lt), refl)
  Run-generation n lt (sweeps {n = m} {w = v} fuel rs k run c l i a s) =
      let (g, b) = Run-generation m lt run in
      let done = cancel_stale-found r fuel rs v k c l i (a, s) in
      let (g', b') = cancel_stale-SameReads r fuel v in ground (arith, g, b, g', b', done)
  Run-generation n lt (sweeps_none {w = v} fuel rs run c l fine) =
      let (g, b) = Run-generation n lt run in
      let done = cancel_stale-none r fuel rs v c l fine in
      let (g', b') = cancel_stale-SameReads r fuel v in ground (arith, g, b, g', b', done)
  Run-generation n lt (redirects {n = m} run) =
      let (g, b) = Run-generation m lt run in (omega (arith, g), b)
  Run-generation n lt (assigns slot context run) = Run-generation n lt run

  generation_same : (g n : ℕ) → g < 2 ^ 64 → n < 2 ^ 64 → (g == (g + n) % 2 ^ 64) ≡ (n == 0)
  generation_same g n lt b = elim (Bool-cases (n == 0)) [
    | inl e ↦ let same : g ≡ (g + n) % 2 ^ 64 = omega (arith, (==_iff n 0).0 e) in ground arith
    | inr e ↦
        let pos : n ≢ 0 = ground arith in
        let other : g ≢ (g + n) % 2 ^ 64 = omega (arith, pos) in ground arith
  ]

  -- A callback of the client's body meets the read that registered it as current exactly if, since
  -- then, no sweep has found a registration outdated and no internal redirect has ended the
  -- request's contexts, whatever the modules store in their slots, and through any number of both
  -- that the generation can count; the read is then taken, and a second callback finds none.
  pub register_client_body_read-taken :
      (callback n id : ℕ) (w u v : World)
      → w.generation < 2 ^ 64
      → n < 2 ^ 64
      → register_client_body_read callback w ≡ (some id, u)
      → Run u n v
      → ((take_client_body_read callback v).0 ≡ (if n == 0 then current else stale))
        × ((take_client_body_read callback (take_client_body_read callback v).1).0 ≡ missing)
  unfolding register_client_body_read take_client_body_read
  register_client_body_read-taken callback n id w u v g b h run =
      let same : u.generation ≡ w.generation = ground arith in
      let lt : u.generation < 2 ^ 64 = omega arith in
      ground (arith, Run-generation n lt run, generation_same w.generation n)
