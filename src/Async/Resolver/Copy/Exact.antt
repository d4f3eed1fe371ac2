-- ===== src/Async/Resolver/Copy/Exact.antt =====
-- src/async_/resolver.rs: when a result is copied, and what the copy shows.
use native.Mathlib.Nat.{le-div_iff_mul-le}
use ngx_rust.Prelude.{
  ℕ, zero, suc, inl, inr, ◌==◌, Bool-cases, ==_iff, ◌*◌, ◌-◌, ◌^◌, ◌≤◌, ◌≡◌, ◌≢◌, ◌↔◌, refl, true,
  List, Result, ok, err, arith, bind-ok,
}
use ngx_rust.Core.Buffer.{read_bytes}
use ngx_rust.Async.Resolver.{Error}
use ngx_rust.Async.Resolver.Copy.{
  NgxStr, NativeAddr, Context, ResolvedAddr, Platform, checked_slice, checked_bytes, named,
  copy_resolved_addr, copy_addrs, copy_result, image, IsCopiable, images, AllCopiable,
}

-- The code compares with a quotient, this with the product.
checked_slice_iff :
    (size at n : ℕ)
    → (checked_slice size at n ≡ ok tt) ↔ (n ≢ 0 → (at ≢ 0) × (n * size ≤ 2 ^ 63 - 1))
unfolding checked_slice
checked_slice_iff size at n = elim (Bool-cases (size == 0)) [
  | inl e ↦
      let z : size ≡ 0 = (==_iff size 0).0 e in
      let small : n * size ≤ 2 ^ 63 - 1 = rw z (omega arith) in
      (λ h k. ground (arith, small), λ h. ground (arith, small))
  | inr e ↦
      let s : size ≢ 0 = ground arith in
      let q = le-div_iff_mul-le {k = size} {x = n} {y = 2 ^ 63 - 1} (omega arith) in
      (λ h k. ground (arith, q.0), λ h. ground (arith, q.1))
]

module _ (p : Platform) where
  named-ok :
      (n at i : ℕ) (bs : List ℕ)
      → named p (read_bytes p.memory at n) i ≡ ok bs
      → (bs ≡ read_bytes p.memory at n) × (n ≢ 0 → p.has_name_room i ≡ true)
  named-ok zero at i bs h = ground arith
  named-ok (suc n) at i bs h = ground arith

  named-room :
      (n at i : ℕ)
      → (n ≢ 0 → p.has_name_room i ≡ true)
      → named p (read_bytes p.memory at n) i ≡ ok (read_bytes p.memory at n)
  named-room zero at i h = refl
  named-room (suc n) at i h = let r : p.has_name_room i ≡ true = h (omega arith) in ground arith

  checked_bytes-ok :
      (s : NgxStr) (bs : List ℕ)
      → checked_bytes p s ≡ ok bs
      → (bs ≡ read_bytes p.memory s.at s.len) × (s.len ≢ 0 → (s.at ≢ 0) × (s.len ≤ 2 ^ 63 - 1))
  unfolding checked_bytes checked_slice
  checked_bytes-ok s bs h = ground arith

  checked_bytes-readable :
      (s : NgxStr)
      → (s.len ≢ 0 → (s.at ≢ 0) × (s.len ≤ 2 ^ 63 - 1))
      → checked_bytes p s ≡ ok (read_bytes p.memory s.at s.len)
  unfolding checked_bytes checked_slice
  checked_bytes-readable s h = ground arith

  copy_resolved_addr-ok :
      (i : ℕ) (a : NativeAddr) (r : ResolvedAddr)
      → copy_resolved_addr p i a ≡ ok r
      → IsCopiable p i a × (r ≡ image p a)
  unfolding copy_resolved_addr
  copy_resolved_addr-ok i a r h = at (checked_bytes p a.name) refl
    where
      at :
          (o : Result Error (List ℕ))
          → checked_bytes p a.name ≡ o
          → IsCopiable p i a × (r ≡ image p a)
      at (err e) q = absurd (ground arith)
      at (ok bs) q = hosted (named p bs i) refl
        where
          hosted :
              (n : Result Error (List ℕ)) → named p bs i ≡ n → IsCopiable p i a × (r ≡ image p a)
          hosted (err e) m = absurd (ground arith)
          hosted (ok host) m =
              let (e, readable) = checked_bytes-ok a.name bs q in
              let m' : named p (read_bytes p.memory a.name.at a.name.len) i ≡ ok host = rw e at m in
              ground (arith, e, readable, named-ok a.name.len a.name.at i host m')

  copy_resolved_addr-image :
      (i : ℕ) (a : NativeAddr) → IsCopiable p i a → copy_resolved_addr p i a ≡ ok (image p a)
  unfolding copy_resolved_addr
  copy_resolved_addr-image i a c =
      ground (arith, checked_bytes-readable a.name, named-room a.name.len a.name.at i)

  copy_addrs-ok :
      (n i : ℕ) (addr : ℕ → NativeAddr) (rs : List ResolvedAddr)
      → copy_addrs p n i addr ≡ ok rs
      → AllCopiable p n i addr × (rs ≡ images p n i addr)
  unfolding copy_addrs
  copy_addrs-ok zero i addr rs h = (tt, ground arith)
  copy_addrs-ok (suc n) i addr rs h =
      let (a, e, h') = bind-ok (copy_resolved_addr p i (addr i)) _ rs h in
      let (rest, e', h'') = bind-ok (copy_addrs p n (suc i) addr) _ rs h' in
      let (c, ea) = copy_resolved_addr-ok i (addr i) a e in
      let (cs, er) = copy_addrs-ok n (suc i) addr rest e' in ((c, cs), ground (arith, h'', ea, er))

  copy_addrs-images :
      (n i : ℕ) (addr : ℕ → NativeAddr)
      → AllCopiable p n i addr
      → copy_addrs p n i addr ≡ ok (images p n i addr)
  unfolding copy_addrs
  copy_addrs-images zero i addr c = refl
  copy_addrs-images (suc n) i addr c =
      rw (copy_resolved_addr-image i (addr i) c.0, copy_addrs-images n (suc i) addr c.1) refl

  -- A result is copied exactly when the resolver reports no error, the array of addresses is empty
  -- or not at null and no larger than an object may be, the pool has room for it, and each address
  -- can be copied; and then the copies show, in order, the bytes of each socket address and of each
  -- name.
  pub copy_result_iff :
      (c : Context) (rs : List ResolvedAddr)
      → (copy_result p c ≡ ok rs) ↔ (
          (c.state ≡ 0)
          × (c.naddrs ≢ 0 → (c.addrs ≢ 0) × (c.naddrs * p.addr_size ≤ 2 ^ 63 - 1))
          × (p.pool_is_valid ≡ true)
          × (p.reserves c.naddrs ≡ true)
          × AllCopiable p c.naddrs 0 c.addr
          × (rs ≡ images p c.naddrs 0 c.addr))
  unfolding copy_result
  copy_result_iff c rs = (
    λ h.
        let (z, s, v, r, k) = copied rs h in
        let (cs, e) = copy_addrs-ok c.naddrs 0 c.addr rs k in
        (z, (checked_slice_iff p.addr_size c.addrs c.naddrs).0 s, v, r, cs, e),
    λ (z, b, v, r, cs, e).
        let s = (checked_slice_iff p.addr_size c.addrs c.naddrs).1 b in
        ground (arith, z, s, v, r, e, copy_addrs-images c.naddrs 0 c.addr cs),
  )
    where
      copied :
          (qs : List ResolvedAddr)
          → copy_result p c ≡ ok qs
          → (c.state ≡ 0)
            × (checked_slice p.addr_size c.addrs c.naddrs ≡ ok tt)
            × (p.pool_is_valid ≡ true)
            × (p.reserves c.naddrs ≡ true)
            × (copy_addrs p c.naddrs 0 c.addr ≡ ok qs)
      copied qs h = ground arith
