-- ===== src/Http/Filter/Run/Stack.antt =====
-- src/http/filter.rs: slots that lead from one module to the next, and what an invocation along them
-- does.
use mathlib.Core.Path.{fun_ext}
use ngx_rust.Prelude.{
  ℕ, zero, suc, ◌<◌, ◌≡◌, refl, sym, ap, subst, ◌∙◌, Option, none, some, List, [], ◌∷◌, Result, ok,
  length, Bool, true, false, arith,
}
use ngx_rust.Http.Filter.{HttpFilterError, Filter, native, trampoline, FilterState}
use ngx_rust.Http.Filter.Run.{
  Handling, reply, call_next, Filters, Part, saved_next, Invoke, handle, callback, invoke, stacked,
  run_module, returned, leaving, entered, map_next,
}

abbrev pub top_of : List ℕ → ℕ → Filter
top_of [] n = native n
top_of (m ∷ ms) n = trampoline m

-- The slots of a list of modules lead from each to the next, and from the last to a filter of nginx.
abbrev pub Linked : Part → (ℕ → FilterState) → List ℕ → ℕ → Type 0
Linked part slots [] n = Unit {0}
Linked part slots (m ∷ ms) n =
    (saved_next part (slots m) ≡ ok (top_of ms n)) × Linked part slots ms n

abbrev pub Returns : {A : Type 0} → Option A → Type 0
Returns none = ⊥
Returns (some a) = Unit {0}

module _ {R : Type 0} (fs : Filters R) where
  pub invoke-stacked :
      (fuel : ℕ) (part : Part) (slots : ℕ → FilterState) (ms : List ℕ) (n : ℕ) (r : R)
      → Linked part slots ms n
      → length ms < fuel
      → invoke fs fuel part slots (top_of ms n) r ≡ stacked fs part ms n r
  unfolding invoke stacked
  invoke-stacked zero part slots ms n r h lt = absurd (omega arith)
  invoke-stacked (suc fuel) part slots [] n r h lt = refl
  invoke-stacked (suc fuel) part slots (m ∷ ms) n r h lt =
      ap
        (λ (s : Result HttpFilterError Filter).
          callback fs part (map_next fs (invoke fs fuel part slots) s) m r)
        h.0
      ∙ ap (λ (f : Invoke fs). callback fs part (ok f) m r)
          (fun_ext (λ (r' : R). invoke-stacked fuel part slots ms n r' h.1 (omega arith)))

  returned-Returns :
      (o : Option (ℕ × R)) (k : Result HttpFilterError ℕ → R → Option (ℕ × R))
      → Returns o
      → ((status : Result HttpFilterError ℕ) (r : R) → Returns (k status r))
      → Returns (returned fs o k)
  returned-Returns none k x all = x
  returned-Returns (some (status, r)) k x all = all (ok status) r

  entered-Returns :
      (o : Bool × R) (f : R → Option (ℕ × R)) → ((r : R) → Returns (f r)) → Returns (entered fs o f)
  entered-Returns (false, r) f all = tt
  entered-Returns (true, r) f all = leaving-Returns (f r) (all r)
    where
      leaving-Returns : (o : Option (ℕ × R)) → Returns o → Returns (leaving fs o)
      leaving-Returns none x = x
      leaving-Returns (some (status, r')) x = tt

  handle-Returns :
      (f : Invoke fs) (total : (r : R) → Returns (f r)) (h : Handling R)
      → Returns (handle fs (ok f) h)
  unfolding handle
  handle-Returns f total (reply status r) = tt
  handle-Returns f total (call_next r k) =
      returned-Returns (f r) (λ status r'. handle fs (ok f) (k status r')) (total r)
        (λ status r'. handle-Returns f total (k status r'))

  callback-Returns :
      (part : Part) (f : Invoke fs)
      → ((r : R) → Returns (f r))
      → (m : ℕ) (r : R) → Returns (callback fs part (ok f) m r)
  unfolding callback
  callback-Returns part f total m r =
      entered-Returns (fs.enter r) (λ r'. handle fs (ok f) (run_module fs part m r'))
        (λ r'. handle-Returns f total (run_module fs part m r'))

  stacked-Returns : (part : Part) (ms : List ℕ) (n : ℕ) (r : R) → Returns (stacked fs part ms n r)
  unfolding stacked
  stacked-Returns part [] n r = tt
  stacked-Returns part (m ∷ ms) n r =
      callback-Returns part (stacked fs part ms n) (stacked-Returns part ms n) m r

  -- With more fuel than modules, an invocation from the top answers what the stack of filters does.
  pub invoke-Returns :
      (fuel : ℕ) (part : Part) (slots : ℕ → FilterState) (ms : List ℕ) (n : ℕ) (r : R)
      → Linked part slots ms n
      → length ms < fuel
      → Returns (invoke fs fuel part slots (top_of ms n) r)
        × (invoke fs fuel part slots (top_of ms n) r ≡ stacked fs part ms n r)
  invoke-Returns fuel part slots ms n r h lt =
      let e : invoke fs fuel part slots (top_of ms n) r ≡ stacked fs part ms n r =
        invoke-stacked fuel part slots ms n r h lt in
      (subst Returns (sym e) (stacked-Returns part ms n r), e)
