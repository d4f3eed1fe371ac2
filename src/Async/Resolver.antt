-- ===== src/Async/Resolver.antt =====
-- src/async_/resolver.rs: the resolution of a name as a future, whose owner in the request's pool
-- receives the callback of nginx's resolver. Copy has the copies that a result is made of.
--
-- A world has one resolution: what the future and the owner share, the owner, and the resolver's
-- context, by its address. The fields after `freed` are not in the source: they count what happened.
pub mod Copy
pub mod Lifecycle
mod Tests
use ngx_rust.Prelude.{
  ℕ, ◌+◌, Bool, true, false, ◌&&◌, ◌||◌, not, Option, none, some, List, ◌==◌, if◌then◌else◌, Result,
  ok, err,
}

pub data ResolverError : Type 0 where
  form_err serv_fail nx_domain not_imp refused timed_out : ResolverError
  unknown : ℕ → ResolverError

pub data Error : Type 0 where
  no_resolver allocation_failed canceled internal : Error
  resolver : ResolverError → List ℕ → Error

pub data Completion (Addresses : Type 0) : Type 0 where
  pending canceled_early taken : Completion Addresses
  ready : Result Error Addresses → Completion Addresses

-- `ResolutionShared`, and `ResolutionOwner` with its context. `linked` is whether `owner` is set; a
-- waker is a number.
pub record World (Addresses : Type 0) : Type 0 where
  pub linked : Bool
  pub pool : Bool
  pub completion : Completion Addresses
  pub waker : Option ℕ
  pub owner_alive : Bool
  pub context : Option ℕ
  -- The context's `data` still names the owner, and its `handler` is set.
  pub handled : Bool
  pub future_alive : Bool
  -- Contexts that were started, that `ngx_resolve_name_done` has freed, and that a failed start has.
  pub begun : ℕ
  pub freed : ℕ
  pub forgotten : ℕ
  -- The waker of the future's last poll, if that answered `Pending` and this waker was not called
  -- since; results that it answered with.
  pub asleep : Option ℕ
  pub delivered : ℕ

-- `ngx_resolve_start`: no resolver, no memory, the caller's context as it is for a quick result, or
-- a new context.
pub data Start (Addresses : Type 0) : Type 0 where
  without_resolver without_memory : Start Addresses
  quick : Result Error Addresses → Start Addresses
  begins : ℕ → Start Addresses

-- What `ngx_resolve_name` does before it returns: it may call the handler, and it succeeds or not. A
-- failure has freed the context.
pub data Lookup (Addresses : Type 0) : Type 0 where
  queued rejected : Lookup Addresses
  cached : Result Error Addresses → Lookup Addresses

-- What `Resolution::new` meets: the copies of the two names, the pool, the owner's memory.
pub record Request (Addresses : Type 0) : Type 0 where
  pub copies_fail : Bool
  pub pool_fails : Bool
  pub owner_fails : Bool
  pub start : Start Addresses
  pub lookup : Lookup Addresses

abbrev pub Created : Type 0 → Type 0
Created A = Result Error (World A) × World A

pub data Poll (Addresses : Type 0) : Type 0 where
  is_pending_yet : Poll Addresses
  is_ready : Result Error Addresses → Poll Addresses

-- What sleeps with the waker `j`, when the waker `k` is called: another waker does not wake it.
abbrev pub roused : ℕ → Option ℕ → Option ℕ
roused k none = none
roused k (some j) = if j == k then none else some j

module _ {Addresses : Type 0} where
  -- `ResolutionShared::new` and `ResolutionOwner::new`.
  abbrev pub fresh : World Addresses
  fresh = record {
    linked = false;
    pool = true;
    completion = pending;
    waker = none;
    owner_alive = true;
    context = none;
    handled = false;
    future_alive = true;
    begun = 0;
    freed = 0;
    forgotten = 0;
    asleep = none;
    delivered = 0;
  }

  -- `waker.wake()` of a waker that was taken.
  abbrev pub wake : Option ℕ → World Addresses → World Addresses
  wake none w = w
  wake (some k) w = record w { asleep = roused k w.asleep }

  -- `make_inert`, and the context's destructor.
  abbrev pub drop_context : Option ℕ → World Addresses → World Addresses
  drop_context none w = w
  drop_context (some c) w = record w { context = none; handled = false; freed = w.freed + 1 }

  abbrev cancel_shared : World Addresses → Option ℕ × World Addresses
  cancel_shared w = if not w.linked then (none, w) else (
    w.waker,
    record w { linked = false; pool = false; completion = canceled_early; waker = none },
  )

  -- `ResolutionOwner::cancel`: with the waker that it returns.
  unfoldable pub cancel : World Addresses → Option ℕ × World Addresses
  cancel w = cancel_shared (drop_context w.context w)

  abbrev woken : Option ℕ × World Addresses → World Addresses
  woken (k, w) = wake k w

  -- `impl Drop for ResolutionOwner`.
  unfoldable pub drop_owner : World Addresses → World Addresses
  drop_owner w = record (woken (cancel w)) { owner_alive = false }

  abbrev is_pending : Completion Addresses → Bool
  is_pending pending = true
  is_pending canceled_early = false
  is_pending taken = false
  is_pending (ready r) = false

  abbrev completed : Result Error Addresses → World Addresses → Option ℕ × World Addresses
  completed r w =
      if not w.linked || not (is_pending w.completion)
      then (none, w)
      else (w.waker, record w { completion = ready r; waker = none })

  abbrev complete_at :
      Option ℕ → ℕ → Result Error Addresses → World Addresses → Option ℕ × World Addresses
  complete_at none c r w = (none, w)
  complete_at (some owned) c r w =
      if not (owned == c) then (none, w) else completed r (drop_context (some owned) w)

  -- `ResolutionOwner::complete`, where `r` is the copy of the context's result. The context is freed
  -- after the result is shared; neither looks at the other.
  unfoldable pub complete :
      ℕ → Result Error Addresses → World Addresses → Option ℕ × World Addresses
  complete c r w = complete_at w.context c r w

  -- `ResolutionOwner::handler`.
  unfoldable pub handler : ℕ → Result Error Addresses → World Addresses → World Addresses
  handler c r w = if c == 0 || not w.handled then w else woken (complete c r w)

  abbrev failed : Error → World Addresses → Created Addresses
  failed e w = (err e, w)

  -- The failure's owner is removed, and the future was never made.
  abbrev removed : Error → World Addresses → Created Addresses
  removed e w = failed e (record (drop_owner w) { future_alive = false })

  abbrev look_up : Lookup Addresses → ℕ → World Addresses → Created Addresses
  look_up queued c w = (ok w, w)
  look_up (cached r) c w = let w' = handler c r w in (ok w', w')
  look_up rejected c w =
      removed internal (record w { context = none; handled = false; forgotten = w.forgotten + 1 })

  abbrev start_at : Start Addresses → Lookup Addresses → World Addresses → Created Addresses
  start_at without_resolver l w = removed no_resolver w
  start_at without_memory l w = removed allocation_failed w
  start_at (quick r) l w = let w' = record (drop_owner w) { completion = ready r } in (ok w', w')
  start_at (begins c) l w =
      look_up l c
        (record w { context = some c; handled = true; linked = true; begun = w.begun + 1 })

  -- `Resolution::new`: the resolution, and in either case what the call has left.
  unfoldable pub new : Request Addresses → Created Addresses
  new q =
      let none_made : World Addresses = record fresh {
        owner_alive = false;
        future_alive = false;
      } in
      if q.copies_fail
      then failed allocation_failed none_made
      else (if q.pool_fails
          then failed internal none_made
          else (if q.owner_fails
              then failed allocation_failed none_made
              else start_at q.start q.lookup fresh))

  abbrev pub read : Result Error Addresses → Bool → Result Error Addresses
  read (ok a) true = ok a
  read (ok a) false = err canceled
  read (err e) pool = err e

  abbrev poll_at : Completion Addresses → ℕ → World Addresses → Poll Addresses × World Addresses
  poll_at pending k w = (is_pending_yet, record w { waker = some k; asleep = some k })
  poll_at (ready r) k w = (
    is_ready (read r w.pool),
    record w { completion = taken; asleep = none; delivered = w.delivered + 1 },
  )
  poll_at canceled_early k w = (is_ready (err canceled), record w { asleep = none })
  poll_at taken k w = (is_ready (err internal), record w { asleep = none })

  -- `Resolution::poll`, with the waker of its context.
  unfoldable pub poll : ℕ → World Addresses → Poll Addresses × World Addresses
  poll k w = poll_at w.completion k w

  -- `impl Drop for Resolution`: the waker of the cancellation is dropped.
  unfoldable pub drop_resolution : World Addresses → World Addresses
  drop_resolution w =
      let w' = if w.linked then (cancel w).1 else w in
      record w' { future_alive = false; asleep = none }
