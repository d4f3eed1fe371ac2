-- ===== src/Http/SubRequest.antt =====
-- src/http/subrequest.rs: the builder of a subrequest, and the future that its completion resolves.
-- The request that nginx makes is an address; a waker is a number.
pub mod Future
mod Tests
use ngx_rust.Prelude.{
  ℕ, ◌*◌, ◌^◌, ◌%◌, ◌≤◌, ◌≡◌, ◌≢◌, refl, ◌⊎◌, inl, inr, Bool, true, false, ◌&&◌, ◌||◌, not, Option,
  none, some, List, leb, ◌==◌, if◌then◌else◌, Result, ok, err, arith,
}
use ngx_rust.Http.Request.{RequestError}

pub data SubRequestError : Type 0 where
  alloc canceled : SubRequestError
  create : ℕ → SubRequestError
  request : RequestError → SubRequestError

-- The bits that the four methods set.
pub record Flags : Type 0 where
  pub in_memory : Bool
  pub waited : Bool
  pub cloned : Bool
  pub background : Bool

-- `SubRequestBuilder`; of the handler, whether there is one.
pub record SubRequestBuilder : Type 0 where
  pub uri : List ℕ
  pub args : Option (List ℕ)
  pub flags : Flags
  pub keep_body : Bool
  pub headers_in_capacity : ℕ
  pub handler : Bool

abbrev copied :
    Option (List ℕ) → (List ℕ → SubRequestBuilder) → Result SubRequestError SubRequestBuilder
copied none f = err alloc
copied (some text) f = ok (f text)

-- `new`, given the pool or its error, and the copy of the text that the pool has room for.
unfoldable pub new :
    Result RequestError (Unit {0}) → Option (List ℕ) → Result SubRequestError SubRequestBuilder
new (err e) copy = err (request e)
new (ok _) copy = copied copy (λ text. record {
  uri = text;
  args = none;
  flags = record { in_memory = false; waited = false; cloned = false; background = false };
  keep_body = false;
  headers_in_capacity = 4;
  handler = false;
})

unfoldable pub with_args :
    Result RequestError (Unit {0})
    → Option (List ℕ)
    → SubRequestBuilder
    → Result SubRequestError SubRequestBuilder
with_args (err e) copy b = err (request e)
with_args (ok _) copy b = copied copy (λ text. record b { args = some text })

unfoldable pub with_handler : SubRequestBuilder → SubRequestBuilder
with_handler b = record b { handler = true }

unfoldable pub in_memory : SubRequestBuilder → SubRequestBuilder
in_memory b = record b { flags = record b.flags { in_memory = true } }

unfoldable pub waited : SubRequestBuilder → SubRequestBuilder
waited b = record b { flags = record b.flags { waited = true } }

unfoldable pub cloned : SubRequestBuilder → SubRequestBuilder
cloned b = record b { flags = record b.flags { cloned = true } }

unfoldable pub background : SubRequestBuilder → SubRequestBuilder
background b = record b { flags = record b.flags { background = true } }

unfoldable pub keep_body : SubRequestBuilder → SubRequestBuilder
keep_body b = record b { keep_body = true }

unfoldable pub init_headers_in : ℕ → SubRequestBuilder → SubRequestBuilder
init_headers_in capacity b = record b { headers_in_capacity = capacity }

-- What nginx and the pool answer to `build`: the pool, the request body, `ngx_list_init`, the owner
-- of the handler, the post record, `ngx_http_subrequest`, and the check of the request that it made.
pub record Host : Type 0 where
  pub header_size : ℕ
  pub pool : Result RequestError (Unit {0})
  pub body : ℕ
  pub list_fails : Bool
  pub handler_fails : Bool
  pub post : ℕ
  pub status : Option ℕ
  pub made : Result RequestError ℕ

-- What a build that succeeds has set: the request, its own body, a header list of its own or the
-- repaired copy of the parent's, whether nginx has a handler to call, and what it was given.
pub record Built : Type 0 where
  pub raw : ℕ
  pub own_body : Option ℕ
  pub own_headers : Bool
  pub posts_handler : Bool
  pub given : SubRequestBuilder

-- The result, and whether the pool owns a handler.
abbrev pub Outcome : Type 0
Outcome = Result SubRequestError Built × Bool

module _ (host : Host) where
  abbrev made_at : Result RequestError ℕ → SubRequestBuilder → Outcome
  made_at (err e) b = (err (request e), b.handler)
  made_at (ok raw) b = (
    ok (record {
      raw = raw;
      own_body = if b.keep_body then none else some host.body;
      own_headers = not (b.headers_in_capacity == 0);
      posts_handler = b.handler;
      given = b;
    }),
    b.handler,
  )

  -- A status other than OK makes the builder remove the handler again.
  abbrev created_at : Option ℕ → SubRequestBuilder → Outcome
  created_at (some status) b = (err (create status), false)
  created_at none b = made_at host.made b

  abbrev handled_at : SubRequestBuilder → Outcome
  handled_at b =
      if b.handler && host.handler_fails
      then (err alloc, false)
      else (if b.handler && (host.post == 0) then (err alloc, false) else created_at host.status b)

  abbrev listed_at : SubRequestBuilder → Outcome
  listed_at b =
      if b.headers_in_capacity == 0
      then handled_at b
      else (if leb (2 ^ 64) (b.headers_in_capacity * host.header_size) || host.list_fails
          then (err alloc, false)
          else handled_at b)

  abbrev pooled_at : Result RequestError (Unit {0}) → SubRequestBuilder → Outcome
  pooled_at (err e) b = (err (request e), false)
  pooled_at (ok _) b =
      if not b.keep_body && (host.body == 0) then (err alloc, false) else listed_at b

  unfoldable pub build : SubRequestBuilder → Outcome
  build b = pooled_at host.pool b

  -- A build that fails before nginx has a subrequest leaves no handler in the pool; one that succeeds
  -- leaves the handler exactly if there is one, for which nginx has a record, and gives the
  -- subrequest a body of its own unless the parent's is kept.
  abbrev pub IsBuilt : SubRequestBuilder → Outcome → Type 0
  IsBuilt b (err e, owned) = (owned ≡ false) ⊎ ((host.status ≡ none) × (owned ≡ b.handler))
  IsBuilt b (ok s, owned) =
      (host.made ≡ ok s.raw)
      × (owned ≡ b.handler)
      × (s.posts_handler ≡ b.handler)
      × (b.handler ≡ true → host.post ≢ 0)
      × (b.keep_body ≡ false → (s.own_body ≡ some host.body) × (host.body ≢ 0))
      × (b.keep_body ≡ true → s.own_body ≡ none)

  pub build-IsBuilt : (b : SubRequestBuilder) → IsBuilt b (build b)
  unfolding build
  build-IsBuilt b = ground arith
