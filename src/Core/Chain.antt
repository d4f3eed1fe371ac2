-- ===== src/Core/Chain.antt =====
-- src/core/chain.rs: chains of buffers, as links in a total map, and the builder of a pool's chain. A
-- buffer of a link is looked up by its address.
mod Tests
pub mod Paths
pub mod Append
pub mod Traversal
pub mod Output
use ngx_rust.Prelude.{
  ℕ, zero, suc, ◌+◌, ◌%◌, Bool, true, false, ◌&&◌, ◌||◌, not, Option, none, some, List, [], ◌∷◌,
  ltb, ◌==◌, if◌then◌else◌, Result, ok, err, ◌>>=◌, ◌>>◌, fail_if, ok_or, put,
}
use ngx_rust.Core.Buffer.{
  Buf, BufferError, misaligned_buffer, foreign_pool, Failure, fails, panics, Platform, size,
}

pub data ChainError : Type 0 where
  null_buffer misaligned_link : ChainError
  buffer : BufferError → ChainError
  allocation overflow panicked : ChainError

-- `ngx_chain_t`.
pub record Link : Type 0 where
  pub buf : ℕ
  pub next : ℕ

abbrev pub Links : Type 0
Links = ℕ → Link

pub record Alignment : Type 0 where
  pub link_align : ℕ
  pub buf_align : ℕ

abbrev pub set_next : ℕ → ℕ → Links → Links
set_next at to h = put at (record { buf = (h at).buf; next = to }) h

-- A failed assertion of the buffer is none of the chain's errors: `panicked` stands for it.
abbrev pub buffer_failure : {A : Type 0} → Result Failure A → Result ChainError A
buffer_failure (ok a) = ok a
buffer_failure (err (fails e)) = err (buffer e)
buffer_failure (err panics) = err panicked

abbrev pub if_found : {A B : Type 0} → Option A → (A → B) → Option B
if_found none f = none
if_found (some x) f = some (f x)

module _ (a : Alignment) where
  unfoldable pub check_chain_ptr : ℕ → Result ChainError (Unit {0})
  check_chain_ptr at = fail_if (not (at == 0) && not (at % a.link_align == 0)) misaligned_link

  -- `ChainIter::next`: the buffer of the link and where the iterator goes on.
  unfoldable pub next : Links → ℕ → Option (Result ChainError ℕ) × ℕ
  next h at =
      if at == 0
      then (none, 0)
      else (if not (at % a.link_align == 0)
          then (some (err misaligned_link), 0)
          else (if (h at).buf == 0
              then (some (err null_buffer), 0)
              else (if not ((h at).buf % a.buf_align == 0)
                  then (some (err (buffer misaligned_buffer)), 0)
                  else (some (ok (h at).buf), (h at).next))))

  -- `tail`, for at most the given number of links: none where they do not suffice.
  unfoldable pub tail : ℕ → Links → ℕ → Option (Result ChainError (Option ℕ))
  tail zero h at = none
  tail (suc fuel) h at =
      let rest = tail fuel h (h at).next in
      if at == 0
      then some (ok none)
      else (if not (at % a.link_align == 0)
          then some (err misaligned_link)
          else (if (h at).next == 0
              then some (ok (some at))
              else (if not ((h at).next % a.link_align == 0)
                  then some (err misaligned_link)
                  else rest)))

  -- The chain that the output filter is given, with the links that it is given in.
  abbrev pub given : Links → ℕ → Result ChainError (Links × ℕ)
  given h at = do check_chain_ptr at; ok (h, at)

  abbrev pub joined : Links → ℕ → ℕ → Result ChainError (Option ℕ) → Result ChainError (Links × ℕ)
  joined h head suffix (err e) = err e
  joined h head suffix (ok none) = given h suffix
  joined h head suffix (ok (some at)) =
      if suffix == 0 then given h head else given (set_next at suffix h) head

  unfoldable pub append_for_output_filter :
      ℕ → Links → ℕ → ℕ → Option (Result ChainError (Links × ℕ))
  append_for_output_filter fuel h head suffix = if_found (tail fuel h head) (joined h head suffix)

abbrev pub checked_add : Platform → ℕ → ℕ → Result ChainError ℕ
checked_add p x y = do fail_if (ltb p.usize_max (x + y)) overflow; ok (x + y)

abbrev pub add_size : Platform → (ℕ → Buf) → ℕ → Result ChainError ℕ → Result ChainError ℕ
add_size p bufs total item = do
  at ← item
  n ← buffer_failure (size p (bufs at))
  checked_add p total n

-- An item of the iterator, or its end; a total, or the error that ends the fold.
abbrev pub at_item :
    Option (Result ChainError ℕ)
    → Option (Result ChainError ℕ)
    → (Result ChainError ℕ → Option (Result ChainError ℕ))
    → Option (Result ChainError ℕ)
at_item none over each = over
at_item (some item) over each = each item

abbrev pub at_total :
    Result ChainError ℕ → (ℕ → Option (Result ChainError ℕ)) → Option (Result ChainError ℕ)
at_total (err e) each = some (err e)
at_total (ok n) each = each n

module _ (a : Alignment) (p : Platform) (bufs : ℕ → Buf) where
  -- The `try_fold` of `len`, for at most the given number of items.
  unfoldable pub len_from : ℕ → Links → ℕ → ℕ → Option (Result ChainError ℕ)
  len_from zero h at total = none
  len_from (suc fuel) h at total =
      at_item (next a h at).0 (some (ok total)) (λ item.
        at_total (add_size p bufs total item) (λ more. len_from fuel h (next a h at).1 more))

  unfoldable pub len : ℕ → Links → ℕ → Option (Result ChainError ℕ)
  len fuel h at = len_from fuel h at 0

-- `PoolChain`.
pub record PoolChain : Type 0 where
  pub head : Option ℕ
  pub tail : Option ℕ
  pub pool : ℕ

unfoldable pub chain : ℕ → PoolChain
chain pool = record { head = none; tail = none; pool = pool }

abbrev pub empty_link : Link
empty_link = record { buf = 0; next = 0 }

-- Appends links from `first` to `last`, which is what both appends end with.
abbrev pub extended : Option ℕ → ℕ → ℕ → Links → PoolChain → Links × PoolChain
extended none first last h c = (h, record c { head = some first; tail = some last })
extended (some at) first last h c = (set_next at first h, record c { tail = some last })

unfoldable pub extend : ℕ → ℕ → Links → PoolChain → Links × PoolChain
extend first last h c = extended c.tail first last h c

-- `ngx_alloc_chain_link` answers with a link, or with none.
unfoldable pub append_raw : Option ℕ → ℕ → Links → PoolChain → Result ChainError (Links × PoolChain)
append_raw allocated raw h c = do
  link ← ok_or allocated allocation
  ok (extend link link (put link (record { buf = raw; next = 0 }) h) c)

unfoldable pub append : Option ℕ → ℕ → Links → PoolChain → Result ChainError (Links × PoolChain)
append allocated raw h c = do fail_if (raw == 0) null_buffer; append_raw allocated raw h c

abbrev pub zip : Option ℕ → Option ℕ → Option (ℕ × ℕ)
zip (some x) (some y) = some (x, y)
zip o o' = none

abbrev pub moved : Option (ℕ × ℕ) → Links → PoolChain → PoolChain → Links × PoolChain × PoolChain
moved none h c candidate = (h, c, candidate)
moved (some (first, last)) h c candidate =
    let (h', c') = extend first last h c in (h', c', record candidate { head = none; tail = none })

unfoldable pub append_chain :
    Links → PoolChain → PoolChain → Result ChainError (Links × PoolChain × PoolChain)
append_chain h c candidate = do
  fail_if (not (c.pool == candidate.pool)) (buffer foreign_pool)
  ok (moved (zip candidate.head candidate.tail) h c candidate)
