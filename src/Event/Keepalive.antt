-- ===== src/Event/Keepalive.antt =====
-- src/event/peer/keepalive.rs, with the checks and the preparation of src/event/peer/connection.rs:
-- an owned connection between active and idle use. Pointers are addresses, 0 is null; one native
-- connection is owned, and its two events and its pool are looked up by their addresses. A failed
-- operation keeps the owner, so every operation returns the state with its error, or none.
mod Tests
pub mod State
pub mod Steps
pub mod Transfer
use ngx_rust.Prelude.{
  ℕ, zero, suc, ◌+◌, ◌%◌, Bool, true, false, ◌&&◌, ◌||◌, not, Option, none, some, ltb, ◌==◌,
  if◌then◌else◌, Result, ok, err, ◌>>=◌, ◌>>◌, fail_if, put,
}

pub data ConnectionError : Type 0 where
  null_connection misaligned_connection misaligned_pool : ConnectionError

pub data EventError : Type 0 where
  null_event misaligned_event : EventError

-- The errors, less those of connecting, which no operation here returns.
pub data EventPeerConnectionError : Type 0 where
  detached pool_allocation ssl_connection : EventPeerConnectionError
  pool_too_small : ℕ → ℕ → EventPeerConnectionError
  stale_connection_error stale_read_end_of_file stale_read_error : EventPeerConnectionError
  stale_read_timed_out stale_write_error stale_write_timed_out : EventPeerConnectionError
  stale_read_ready read_event_registration : EventPeerConnectionError
  connection : ConnectionError → EventPeerConnectionError
  event : EventError → EventPeerConnectionError

-- `inert_event_handler`, or the handler of an active owner.
pub data Handler : Type 0 where
  inert : Handler
  active : ℕ → Handler

pub record Event : Type 0 where
  pub timer_set : Bool
  pub eof : Bool
  pub error : Bool
  pub timedout : Bool
  pub ready : Bool
  pub handler : Handler
  pub log : ℕ

-- The owner's pointer and logger, the native connection, and the memory that it points to.
pub record Peer : Type 0 where
  pub connection : ℕ
  pub log : ℕ
  pub error : Bool
  pub ssl : ℕ
  pub data_at : ℕ
  pub idle : Bool
  pub connection_log : ℕ
  pub read : ℕ
  pub write : ℕ
  pub pool : ℕ
  pub events : ℕ → Event
  pub pool_log : ℕ → ℕ

-- The alignments of the native types, and the smallest size of a pool.
pub record Platform : Type 0 where
  pub connection_align : ℕ
  pub event_align : ℕ
  pub pool_align : ℕ
  pub min_pool_size : ℕ

pub record Preparation : Type 0 where
  pub log : ℕ
  pub read_handler : Handler
  pub write_handler : Handler
  pub pool_size : ℕ
  pub data_at : ℕ
  pub idle : Bool

abbrev pub Check : Type 0
Check = Result EventPeerConnectionError (Unit {0})

abbrev pub Outcome : Type 0
Outcome = Option EventPeerConnectionError × Peer

-- `if let Err(error) = ... { return Err(error) }` on a check, and on an operation.
abbrev pub checked : Check → Peer → (Peer → Outcome) → Outcome
checked (ok u) p f = f p
checked (err e) p f = (some e, p)

abbrev pub follow : Outcome → (Peer → Outcome) → Outcome
follow (none, p) f = f p
follow (some e, p) f = (some e, p)

abbrev pub set_event : ℕ → (Event → Event) → Peer → Peer
set_event at f p = record p { events = put at (f (p.events at)) p.events }

abbrev pub quiet : Event → Event
quiet e = record e { timer_set = false; handler = inert }

abbrev pub quieted : Bool → Peer → Peer
quieted idle p = record (set_event p.write quiet (set_event p.read quiet p)) {
  data_at = 0;
  idle = idle;
}

abbrev pub log_to : ℕ → Event → Event
log_to log e = record e { log = log }

abbrev pub log_pool : ℕ → Peer → Peer
log_pool log p = if p.pool == 0 then p else record p { pool_log = put p.pool log p.pool_log }

abbrev pub relogged : ℕ → Peer → Peer
relogged log p =
    log_pool log (record (set_event p.write (log_to log) (set_event p.read (log_to log) p)) {
      log = log;
      connection_log = log;
    })

abbrev pub stale : Event → Event → Bool → Check
stale read write error = do
  fail_if error stale_connection_error
  fail_if read.eof stale_read_end_of_file
  fail_if read.error stale_read_error
  fail_if read.timedout stale_read_timed_out
  fail_if write.error stale_write_error
  fail_if write.timedout stale_write_timed_out
  fail_if read.ready stale_read_ready

abbrev pub install : Preparation → Peer → ℕ → Peer
install q p pool =
    let with_events =
      set_event p.write (λ e. record e { log = q.log; handler = q.write_handler })
        (set_event p.read (λ e. record e { log = q.log; handler = q.read_handler }) p) in
    record with_events {
      log = q.log;
      connection_log = q.log;
      data_at = q.data_at;
      idle = q.idle;
      pool = pool;
      pool_log = put pool q.log p.pool_log;
    }

abbrev pub prepared : Result EventPeerConnectionError ℕ → Preparation → Peer → Outcome
prepared (err e) q p = (some e, p)
prepared (ok pool) q p = (none, install q p pool)

-- A failed attachment leaves the owner without a connection.
abbrev pub detach : Outcome → Outcome
detach (none, p) = (none, p)
detach (some e, p) = (some e, record p { connection = 0 })

module _ (m : Platform) where
  unfoldable pub checked_connection : ℕ → Check
  checked_connection at = do
    fail_if (at == 0) (connection null_connection)
    fail_if (not (at % m.connection_align == 0)) (connection misaligned_connection)

  unfoldable pub checked_plain_connection : Peer → ℕ → Check
  checked_plain_connection p at = do
    checked_connection at
    fail_if (not (p.ssl == 0)) ssl_connection

  unfoldable pub checked_events : Peer → Check
  checked_events p = do
    fail_if (p.read == 0) (event null_event)
    fail_if (p.write == 0) (event null_event)
    fail_if (not (p.read % m.event_align == 0) || not (p.write % m.event_align == 0))
        (event misaligned_event)

  unfoldable pub checked_pool : Peer → Check
  checked_pool p =
      fail_if (not (p.pool == 0) && not (p.pool % m.pool_align == 0)) (connection misaligned_pool)

  -- `checked_event_peer_connection`.
  unfoldable pub checked_peer : Peer → ℕ → Check
  checked_peer p at = do checked_plain_connection p at; checked_events p; checked_pool p

  -- `EventPeer::connection`, followed by the check of the events.
  unfoldable pub owned : Peer → Check
  owned p = do
    fail_if (p.connection == 0) detached
    checked_plain_connection p p.connection
    checked_events p

  unfoldable pub quiesce : Bool → Peer → Outcome
  quiesce idle p = checked (owned p) p (λ p. (none, quieted idle p))

  unfoldable pub update_log : ℕ → Peer → Outcome
  update_log log p = checked (do owned p; checked_pool p) p (λ p. (none, relogged log p))

  unfoldable pub validate_keepalive : Peer → Check
  validate_keepalive p = do owned p; stale (p.events p.read) (p.events p.write) p.error

  -- The pool of `prepare`: `ngx_create_pool` answered `created`, 0 where it failed.
  unfoldable pub prepare_pool : ℕ → Preparation → Peer → Result EventPeerConnectionError ℕ
  prepare_pool created q p =
      if not (p.pool == 0)
      then ok p.pool
      else (if ltb q.pool_size m.min_pool_size
          then err (pool_too_small q.pool_size m.min_pool_size)
          else (if created == 0 then err pool_allocation else ok created))

  unfoldable pub prepare : ℕ → Preparation → Peer → Outcome
  prepare created q p =
      checked (do owned p; checked_pool p) p (λ p. prepared (prepare_pool created q p) q p)

  -- `ngx_handle_read_event` answered `registered`.
  unfoldable pub register_keepalive_read : Bool → Peer → Outcome
  register_keepalive_read registered p =
      checked (owned p) p (λ p. (if registered then none else some read_event_registration, p))

  unfoldable pub attach_keepalive : ℕ → Peer → Outcome
  attach_keepalive at p =
      checked (checked_peer p at) p (λ p. detach (quiesce true (record p { connection = at })))

  -- The failed registration puts the active state back.
  abbrev pub undo : ℕ → Outcome → Outcome
  undo log (none, p) = (none, p)
  undo log (some e, p) = (some e, (update_log log (quiesce false p).1).1)

  unfoldable pub into_keepalive : ℕ → Bool → Preparation → Peer → Outcome
  into_keepalive created registered q p = checked (validate_keepalive p) p (λ p.
      follow (quiesce true p) (λ p'.
        follow (prepare created (record q { idle = true }) p')
          (λ p''. undo p'.log (register_keepalive_read registered p''))))

  unfoldable pub into_connection : ℕ → Peer → Outcome
  into_connection log p =
      checked (validate_keepalive p) p (λ p. follow (quiesce false p) (update_log log))
