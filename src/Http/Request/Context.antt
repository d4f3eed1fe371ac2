-- ===== src/Http/Request/Context.antt =====
-- src/http/request/context.rs: the registry of the module contexts of a request, and the pending read
-- of the client's body.
--
-- The registrations are linked by address, 0 ends the list. The slot and the context of a
-- registration do not change; a slot holds the context that a module finds, or 0. What the cancel
-- function of a module does to its context is a name in the log `cancelled`.
pub mod Reads
pub mod Sweep
mod Tests
use ngx_rust.Prelude.{
  ℕ, zero, suc, ◌+◌, ◌%◌, ◌^◌, Bool, true, false, ◌&&◌, ◌||◌, not, Option, none, some, List, [],
  ◌∷◌, ◌==◌, if◌then◌else◌, put,
}

-- `RequestContextRegistration`, what is fixed of it, for each address.
pub record Registrations : Type 0 where
  pub slot_of : ℕ → ℕ
  pub context_of : ℕ → ℕ

-- `ClientBodyReadOperation`.
pub record ClientBodyReadOperation : Type 0 where
  pub id : ℕ
  pub generation : ℕ
  pub callback : ℕ

-- `RequestContextRegistry`, with the fields of the registrations that change, and the slots.
pub record World : Type 0 where
  pub first : ℕ
  pub next : ℕ → ℕ
  pub active : ℕ → Bool
  pub slots : ℕ → ℕ
  pub cancelled : List ℕ
  pub generation : ℕ
  pub next_client_body_read_id : ℕ
  pub client_body_read : Option ClientBodyReadOperation

pub data ClientBodyCallbackState : Type 0 where
  current stale missing : ClientBodyCallbackState

-- `RequestContextRegistry::insert`.
unfoldable pub insert : ℕ → World → World
insert at w = record w { next = put at w.first w.next; first = at }

-- `self.generation.wrapping_add(1)`.
unfoldable pub advance_generation : World → World
advance_generation w = record w { generation = (w.generation + 1) % 2 ^ 64 }

-- `advance_request_generation`, where the pool has the registry: `internal_redirect` calls it.
unfoldable pub advance_request_generation : World → World
advance_request_generation w = advance_generation w

-- The loop of `unlink` at the link `before`, which is 0 for `first`.
unfoldable pub unlink_from : ℕ → ℕ → ℕ → World → World
unlink_from zero target before w = w
unlink_from (suc fuel) target before w =
    let current = if before == 0 then w.first else w.next before in
    let after = w.next current in
    let rest = unlink_from fuel target current w in
    if current == 0
    then w
    else (if current == target
        then (if before == 0
            then record w { first = after; next = put target 0 w.next }
            else record w { next = put target 0 (put before after w.next) })
        else rest)

unfoldable pub unlink : ℕ → ℕ → World → World
unlink fuel target w = unlink_from fuel target 0 w

module _ (r : Registrations) where
  -- `RequestContextRegistration::cancel`.
  unfoldable pub cancel : ℕ → World → World
  cancel at w =
      let slot = r.slot_of at in
      if not (w.active at) then w else record w {
        active = put at false w.active;
        slots = if w.slots slot == r.context_of at then put slot 0 w.slots else w.slots;
        cancelled = r.context_of at ∷ w.cancelled;
      }

  unfoldable pub has_stale : ℕ → ℕ → World → Bool
  has_stale zero at w = false
  has_stale (suc fuel) at w =
      let rest = has_stale fuel (w.next at) w in
      if at == 0
      then false
      else (if w.active at && not (w.slots (r.slot_of at) == r.context_of at) then true else rest)

  abbrev pub cancel_if : Bool → ℕ → World → World
  cancel_if true at w = cancel at w
  cancel_if false at w = w

  -- The loop of `cancel_stale`: whether it has cancelled one.
  unfoldable pub cancel_stale_from : ℕ → ℕ → Bool → World → Bool × World
  cancel_stale_from zero at done w = (done, w)
  cancel_stale_from (suc fuel) at done w =
      let found = w.active at && not (w.slots (r.slot_of at) == r.context_of at) in
      let rest = cancel_stale_from fuel (w.next at) (done || found) (cancel_if found at w) in
      if at == 0 then (done, w) else rest

  unfoldable pub cancel_stale : ℕ → World → Bool × World
  cancel_stale fuel w = cancel_stale_from fuel w.first false w

  -- `cancel_all`, and `cancel_request_context_generation` from a registration on.
  unfoldable pub cancel_all_from : ℕ → ℕ → World → World
  cancel_all_from zero at w = w
  cancel_all_from (suc fuel) at w =
      let rest = cancel_all_from fuel (w.next at) (cancel at w) in if at == 0 then w else rest

  unfoldable pub cancel_all : ℕ → World → World
  cancel_all fuel w = cancel_all_from fuel w.first w

  abbrev advance_if : Bool × World → World
  advance_if (true, w) = advance_generation w
  advance_if (false, w) = w

  -- `cancel_stale_request_contexts`, within the retained reference on the request.
  unfoldable pub cancel_stale_request_contexts : ℕ → World → World
  cancel_stale_request_contexts fuel w = advance_if (cancel_stale fuel w)

abbrev registered_at : Option ClientBodyReadOperation → ℕ → World → Option ℕ × World
registered_at (some operation) callback w = (none, w)
registered_at none callback w =
    let id = w.next_client_body_read_id in
    (
      some id,
      record w {
        next_client_body_read_id = (id + 1) % 2 ^ 64;
        client_body_read =
            some (record { id = id; generation = w.generation; callback = callback });
      },
    )

-- `register_client_body_read`: the id, or none where a read is pending.
unfoldable pub register_client_body_read : ℕ → World → Option ℕ × World
register_client_body_read callback w = registered_at w.client_body_read callback w

abbrev taken_at : Option ClientBodyReadOperation → ℕ → World → ClientBodyCallbackState × World
taken_at none expected w = (missing, w)
taken_at (some operation) expected w =
    if not (operation.callback == expected) then (missing, w) else (
      if operation.generation == w.generation then current else stale,
      record w { client_body_read = none },
    )

unfoldable pub take_client_body_read : ℕ → World → ClientBodyCallbackState × World
take_client_body_read expected w = taken_at w.client_body_read expected w

abbrev cleared_at : Option ClientBodyReadOperation → ℕ → ℕ → World → World
cleared_at none id expected w = w
cleared_at (some operation) id expected w =
    if (operation.id == id) && (operation.callback == expected)
    then record w { client_body_read = none }
    else w

unfoldable pub clear_client_body_read : ℕ → ℕ → World → World
clear_client_body_read id expected w = cleared_at w.client_body_read id expected w
