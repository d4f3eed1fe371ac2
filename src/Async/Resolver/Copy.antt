-- ===== src/Async/Resolver/Copy.antt =====
-- src/async_/resolver.rs: the copies of the resolver's addresses in the request's pool. The result
-- fields of the context are as nginx reports them; `utf8` is the standard library's lossy decoding.
pub mod Exact
use ngx_rust.Prelude.{
  ℕ, zero, suc, ◌+◌, ◌-◌, ◌/◌, ◌^◌, ◌≤◌, ◌<◌, ◌≡◌, ◌≢◌, ◌↔◌, refl, ap, Bool, true, false, ◌&&◌,
  ◌||◌, not, List, [], ◌∷◌, ltb, ◌==◌, if◌then◌else◌, Result, ok, err, ◌>>=◌, ◌>>◌, fail_if, arith,
  bind-ok, ok_injective,
}
use ngx_rust.Core.Buffer.{Memory, read_bytes}
use ngx_rust.Async.Resolver.{
  Error, allocation_failed, internal, resolver, ResolverError, form_err, serv_fail, nx_domain,
  not_imp, refused, timed_out, unknown,
}

-- `ngx_str_t`.
pub record NgxStr : Type 0 where
  pub at : ℕ
  pub len : ℕ

-- `ngx_resolver_addr_t`.
pub record NativeAddr : Type 0 where
  pub sockaddr : ℕ
  pub socklen : ℕ
  pub name : NgxStr

-- `ngx_resolver_ctx_t`: what a result is copied from. The state is the pattern of an `ngx_int_t`.
pub record Context : Type 0 where
  pub state : ℕ
  pub name : NgxStr
  pub naddrs : ℕ
  pub addrs : ℕ
  pub addr : ℕ → NativeAddr

-- `ngx_addr_t`, with the bytes that its two pointers lead to.
pub record ResolvedAddr : Type 0 where
  pub socket_address : List ℕ
  pub socklen : ℕ
  pub host_name : List ℕ

pub record Codes : Type 0 where
  pub formerr : ℕ
  pub servfail : ℕ
  pub nxdomain : ℕ
  pub notimp : ℕ
  pub refuses : ℕ
  pub timedout : ℕ

-- The sizes of the platform, what memory holds, and which allocations the pool has room for: the
-- vector, and the two copies of each address.
pub record Platform : Type 0 where
  pub codes : Codes
  pub family_size : ℕ
  pub storage_size : ℕ
  pub addr_size : ℕ
  pub memory : Memory
  pub utf8 : List ℕ → List ℕ
  pub pool_is_valid : Bool
  pub reserves : ℕ → Bool
  pub has_room : ℕ → Bool
  pub has_name_room : ℕ → Bool

-- `ResolverError::from`.
unfoldable pub resolver_error : Codes → ℕ → ResolverError
resolver_error k code =
    if code == k.formerr
    then form_err
    else (if code == k.servfail
        then serv_fail
        else (if code == k.nxdomain
            then nx_domain
            else (if code == k.notimp
                then not_imp
                else (if code == k.refuses
                    then refused
                    else (if code == k.timedout then timed_out else unknown code)))))

-- `checked_slice`, on the address and the length; `size` is that of an element.
unfoldable pub checked_slice : ℕ → ℕ → ℕ → Result Error (Unit {0})
checked_slice size pointer length =
    if length == 0
    then ok tt
    else fail_if (pointer == 0 || (not (size == 0) && ltb ((2 ^ 63 - 1) / size) length)) internal

module _ (p : Platform) where
  unfoldable pub checked_bytes : NgxStr → Result Error (List ℕ)
  checked_bytes s = do checked_slice 1 s.at s.len; ok (read_bytes p.memory s.at s.len)

  abbrev pub named : List ℕ → ℕ → Result Error (List ℕ)
  named [] i = ok []
  named (b ∷ bs) i = do fail_if (not (p.has_name_room i)) allocation_failed; ok (b ∷ bs)

  -- `copy_resolved_addr`, of the address of index `i`.
  unfoldable pub copy_resolved_addr : ℕ → NativeAddr → Result Error ResolvedAddr
  copy_resolved_addr i a = do
    fail_if (ltb a.socklen p.family_size || ltb p.storage_size a.socklen) internal
    fail_if (a.sockaddr == 0) internal
    fail_if (not (p.has_room i)) allocation_failed
    bytes ← checked_bytes a.name
    host ← named bytes i
    ok (record {
      socket_address = read_bytes p.memory a.sockaddr a.socklen;
      socklen = a.socklen;
      host_name = host;
    })

  -- The loop over `n` addresses from index `i` on.
  unfoldable pub copy_addrs : ℕ → ℕ → (ℕ → NativeAddr) → Result Error (List ResolvedAddr)
  copy_addrs zero i addr = ok []
  copy_addrs (suc n) i addr = do
    a ← copy_resolved_addr i (addr i)
    rest ← copy_addrs n (suc i) addr
    ok (a ∷ rest)

  unfoldable pub copy_result : Context → Result Error (List ResolvedAddr)
  copy_result c =
      if not (c.state == 0)
      then (do
        name ← checked_bytes c.name
        err (resolver (resolver_error p.codes c.state) (p.utf8 name)))
      else (do
        checked_slice p.addr_size c.addrs c.naddrs
        fail_if (not p.pool_is_valid) internal
        fail_if (not (p.reserves c.naddrs)) allocation_failed
        copy_addrs c.naddrs 0 c.addr)

  -- What a copy shows, and when an address can be copied.
  abbrev pub image : NativeAddr → ResolvedAddr
  image a = record {
    socket_address = read_bytes p.memory a.sockaddr a.socklen;
    socklen = a.socklen;
    host_name = read_bytes p.memory a.name.at a.name.len;
  }

  abbrev pub IsCopiable : ℕ → NativeAddr → Type 0
  IsCopiable i a =
      (p.family_size ≤ a.socklen)
      × (a.socklen ≤ p.storage_size)
      × (a.sockaddr ≢ 0)
      × (p.has_room i ≡ true)
      × (a.name.len ≢ 0 → (a.name.at ≢ 0) × (a.name.len ≤ 2 ^ 63 - 1) × (p.has_name_room i ≡ true))

  abbrev pub images : ℕ → ℕ → (ℕ → NativeAddr) → List ResolvedAddr
  images zero i addr = []
  images (suc n) i addr = image (addr i) ∷ images n (suc i) addr

  abbrev pub AllCopiable : ℕ → ℕ → (ℕ → NativeAddr) → Type 0
  AllCopiable zero i addr = Unit {0}
  AllCopiable (suc n) i addr = IsCopiable i (addr i) × AllCopiable n (suc i) addr
