-- ===== src/Http/Filter/Run.antt =====
-- src/http/filter.rs: a response on its way down the installed filters, each of which continues
-- with the filter that its slot saved.
pub mod Stack
use ngx_rust.Prelude.{
  ℕ, zero, suc, Bool, true, false, Option, none, some, List, [], ◌∷◌, Result, ok, err, ok_or,
}
use ngx_rust.Core.Chain.{Alignment, ChainError, check_chain_ptr}
use ngx_rust.Http.Filter.{
  HttpFilterError, missing_header_next, missing_body_next, Filter, native, trampoline, FilterState,
}

-- What a module's filter does with a request and, for a body filter, a chain: it answers with a
-- status, or it continues with the saved filter and goes on with what that returned. `R` is the
-- request with all that a filter changes of it.
pub data Handling (R : Type 0) : Type 0 where
  reply : ℕ → R → Handling R
  call_next : R → (Result HttpFilterError ℕ → R → Handling R) → Handling R

-- Which of the two chains is walked.
pub data Part : Type 0 where
  header_part body_part : Part

-- The filters of nginx and of the modules, the head of the chain that a body filter is given, and
-- what `request_callback_status` does before and after the callback, with whether it goes on.
pub record Filters (R : Type 0) : Type 1 where
  pub native_filter : Part → ℕ → R → ℕ × R
  pub module_filter : Part → ℕ → R → Handling R
  pub chain : R → ℕ
  pub links : Alignment
  pub enter : R → Bool × R
  pub leave : R → Bool × R
  pub error_status : ℕ

-- `call_next_header` and `call_next_body`: the saved filter, if the slot holds one.
unfoldable pub saved_next : Part → FilterState → Result HttpFilterError Filter
saved_next header_part s = ok_or s.header missing_header_next
saved_next body_part s = ok_or s.body missing_body_next

module _ {R : Type 0} (fs : Filters R) where
  abbrev pub Invoke : Type 0
  Invoke = R → Option (ℕ × R)

  abbrev pub returned :
      Option (ℕ × R) → (Result HttpFilterError ℕ → R → Option (ℕ × R)) → Option (ℕ × R)
  returned none k = none
  returned (some (status, r)) k = k (ok status) r

  -- A module's filter, given how the saved filter is invoked.
  unfoldable pub handle : Result HttpFilterError Invoke → Handling R → Option (ℕ × R)
  handle next (reply status r) = some (status, r)
  handle (err e) (call_next r k) = handle (err e) (k (err e) r)
  handle (ok f) (call_next r k) = returned (f r) (λ status r'. handle (ok f) (k status r'))

  abbrev left : ℕ → Bool × R → ℕ × R
  left status (true, r) = (status, r)
  left status (false, r) = (fs.error_status, r)

  abbrev pub leaving : Option (ℕ × R) → Option (ℕ × R)
  leaving none = none
  leaving (some (status, r)) = some (left status (fs.leave r))

  abbrev pub entered : Bool × R → (R → Option (ℕ × R)) → Option (ℕ × R)
  entered (false, r) f = some (fs.error_status, r)
  entered (true, r) f = leaving (f r)

  abbrev with_chain : Result ChainError (Unit {0}) → R → Handling R → Handling R
  with_chain (err e) r h = reply fs.error_status r
  with_chain (ok _) r h = h

  -- What runs within the callback: the body's chain is checked first.
  unfoldable pub run_module : Part → ℕ → R → Handling R
  run_module header_part m r = fs.module_filter header_part m r
  run_module body_part m r =
      with_chain (check_chain_ptr fs.links (fs.chain r)) r (fs.module_filter body_part m r)

  -- `header_filter::<M>` and `body_filter::<M>`.
  unfoldable pub callback : Part → Result HttpFilterError Invoke → ℕ → R → Option (ℕ × R)
  callback part next m r = entered (fs.enter r) (λ r'. handle next (run_module part m r'))

  abbrev pub map_next :
      (Filter → Invoke) → Result HttpFilterError Filter → Result HttpFilterError Invoke
  map_next f (err e) = err e
  map_next f (ok g) = ok (f g)

  -- An invocation of a filter; `none` when the fuel runs out.
  unfoldable pub invoke : ℕ → Part → (ℕ → FilterState) → Filter → Invoke
  invoke zero part slots f r = none
  invoke (suc fuel) part slots (native n) r = some (fs.native_filter part n r)
  invoke (suc fuel) part slots (trampoline m) r =
      callback part (map_next (invoke fuel part slots) (saved_next part (slots m))) m r

  -- The filters of a list of modules, the first on top, over a filter of nginx.
  unfoldable pub stacked : Part → List ℕ → ℕ → Invoke
  stacked part [] n r = some (fs.native_filter part n r)
  stacked part (m ∷ ms) n r = callback part (ok (stacked part ms n)) m r
