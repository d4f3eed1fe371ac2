-- ===== src/Event/Keepalive/Transfer.antt =====
-- src/event/peer/keepalive.rs: what the transfers of a connection leave behind.
use ngx_rust.Prelude.{
  ℕ, ◌≡◌, refl, sym, subst, ap, ◌∙◌, inr, Bool, true, false, none, some, ok, err, put-same,
}
use ngx_rust.Event.Keepalive.{
  Peer, Platform, Preparation, EventPeerConnectionError, read_event_registration, owned,
  checked_pool, quieted, relogged, validate_keepalive, prepare, prepare_pool, prepared, install,
  register_keepalive_read, into_keepalive, into_connection, undo, follow,
}
use ngx_rust.Event.Keepalive.State.{
  both, IsQuiet, SharesLog, quieted-IsQuiet, relogged-IsQuiet, relogged-SharesLog, relogged_rest,
}
use ngx_rust.Event.Keepalive.Steps.{
  validate-owned, owned-quieted, into_connection-valid, into_keepalive-valid, prepare-quieted,
  into_keepalive-prepared, owned-install, checked_pool-install, checked_pool-record, undo-failed,
}

module _ (m : Platform) where
  -- A stale or invalid connection is refused by both transfers, and is left as it was.
  pub transfer-stale :
      (created : ℕ) (registered : Bool) (q : Preparation) (log : ℕ) (p : Peer)
      (e : EventPeerConnectionError)
      → validate_keepalive m p ≡ err e
      → (into_keepalive m created registered q p ≡ (some e, p))
        × (into_connection m log p ≡ (some e, p))
  unfolding into_keepalive into_connection
  transfer-stale created registered q log p e h = (rw h refl, rw h refl)

  -- A connection that is not stale, with an aligned pool, becomes active: it is no longer idle, its
  -- events are quiet, it belongs to no data, and everything logs to the new logger.
  pub into_connection-IsQuiet :
      (log : ℕ) (p : Peer)
      → validate_keepalive m p ≡ ok tt
      → checked_pool m p ≡ ok tt
      → let (e, r) = into_connection m log p in
        (e ≡ none)
        × (r.idle ≡ false)
        × (r.data_at ≡ 0)
        × IsQuiet (r.events r.read)
        × IsQuiet (r.events r.write)
        × SharesLog log r
  into_connection-IsQuiet log p h k = rw (into_connection-valid m log p h k) (
    refl,
    (relogged_rest log (quieted false p)).0,
    (relogged_rest log (quieted false p)).1,
    (quiet' log).0,
    (quiet' log).1,
    relogged-SharesLog log (quieted false p),
  )
    where
      quiet' :
          (log : ℕ)
          → let r = relogged log (quieted false p) in
            IsQuiet (r.events r.read) × IsQuiet (r.events r.write)
      quiet' log =
          relogged-IsQuiet log (quieted false p) (quieted-IsQuiet false p).0
            (quieted-IsQuiet false p).1

  into_keepalive-quieted :
      (created : ℕ) (registered : Bool) (q : Preparation) (p : Peer) (e : EventPeerConnectionError)
      → validate_keepalive m p ≡ ok tt
      → checked_pool m p ≡ ok tt
      → prepare_pool m created q p ≡ err e
      → into_keepalive m created registered q p ≡ (some e, quieted true p)
  into_keepalive-quieted created registered q p e h k f =
      into_keepalive-valid m created registered q p h
      ∙ ap (λ o. follow o (λ p'. undo m p.log (register_keepalive_read m registered p'))) unprepared
    where
      unprepared :
          prepare m created (record q { idle = true }) (quieted true p) ≡ (some e, quieted true p)
      unprepared =
          prepare-quieted m created q p (validate-owned m p h) k
          ∙ ap (λ o. prepared o (record q { idle = true }) (quieted true p)) f

  -- An owner whose pool cannot be made fails to become idle, and is left idle all the same: the
  -- error comes with a connection that is marked idle, belongs to no data and has its two events
  -- quiet, though it keeps its address, its pool and its logger.
  pub into_keepalive-unprepared :
      (created : ℕ) (registered : Bool) (q : Preparation) (p : Peer) (e : EventPeerConnectionError)
      → validate_keepalive m p ≡ ok tt
      → checked_pool m p ≡ ok tt
      → prepare_pool m created q p ≡ err e
      → let (error, r) = into_keepalive m created registered q p in
        (error ≡ some e)
        × (r.idle ≡ true)
        × (r.data_at ≡ 0)
        × IsQuiet (r.events p.read)
        × IsQuiet (r.events p.write)
        × (r.connection ≡ p.connection)
        × (r.pool ≡ p.pool)
        × (r.log ≡ p.log)
  into_keepalive-unprepared created registered q p e h k f =
      rw (into_keepalive-quieted created registered q p e h k f) (
        let quiet = quieted-IsQuiet true p in
        (refl, refl, refl, quiet.0, quiet.1, refl, refl, refl))

  -- A connection that is not stale, for which nginx has or makes a pool and registers the read
  -- event, becomes idle: no timer is set, the data and the pool are the prepared ones, and everything
  -- logs to the logger of the preparation.
  pub into_keepalive-idle :
      (created pool : ℕ) (q : Preparation) (p : Peer)
      → validate_keepalive m p ≡ ok tt
      → checked_pool m p ≡ ok tt
      → prepare_pool m created q p ≡ ok pool
      → let (e, r) = into_keepalive m created true q p in
        (e ≡ none)
        × (r.idle ≡ true)
        × (r.data_at ≡ q.data_at)
        × (r.pool ≡ pool)
        × ((r.events r.read).timer_set ≡ false)
        × ((r.events r.write).timer_set ≡ false)
        × SharesLog q.log r
  unfolding register_keepalive_read
  into_keepalive-idle created pool q p h k f =
      rw
        (
          into_keepalive-prepared m created pool true q p h k f,
          owned-install m (record q { idle = true }) (quieted true p) pool,
          owned-quieted m true p,
          validate-owned m p h,
        )
        (let quiet = quieted-IsQuiet true p in
          let (read, write) =
            both (λ e. e.timer_set ≡ false)
              (λ e. record e { log = q.log; handler = q.read_handler })
              (λ e. record e { log = q.log; handler = q.write_handler }) p.read p.write
              (quieted true p).events quiet.0.0 quiet.1.0 (λ e h. h) in
          let (read_log, write_log) =
            both (λ e. e.log ≡ q.log) (λ e. record e { log = q.log; handler = q.read_handler })
              (λ e. record e { log = q.log; handler = q.write_handler }) p.read p.write
              (quieted true p).events refl refl (λ e h. refl) in
          (
            refl,
            refl,
            refl,
            refl,
            read,
            write,
            (refl, refl, read_log, write_log, inr (put-same pool q.log p.pool_log)),
          ))

  refused :
      (p : Peer)
      → owned m p ≡ ok tt
      → register_keepalive_read m false p ≡ (some read_event_registration, p)
  unfolding register_keepalive_read
  refused p h = rw h refl

  active_again :
      (log : ℕ) (p : Peer)
      → let r = relogged log (quieted false p) in
        (r.idle ≡ false) × IsQuiet (r.events r.read) × IsQuiet (r.events r.write) × SharesLog log r
  active_again log p =
      let quiet = quieted-IsQuiet false p in
      let (read, write) = relogged-IsQuiet log (quieted false p) quiet.0 quiet.1 in
      (
        (relogged_rest log (quieted false p)).0,
        read,
        write,
        relogged-SharesLog log (quieted false p),
      )

  -- When nginx refuses to register the read event, the owner is active again: not idle, its events
  -- quiet, and everything logs to the logger that it had.
  pub into_keepalive-undone :
      (created pool : ℕ) (q : Preparation) (p : Peer)
      → validate_keepalive m p ≡ ok tt
      → checked_pool m p ≡ ok tt
      → prepare_pool m created q p ≡ ok pool
      → checked_pool m (record p { pool = pool }) ≡ ok tt
      → let (e, r) = into_keepalive m created false q p in
        (e ≡ some read_event_registration)
        × (r.idle ≡ false)
        × IsQuiet (r.events r.read)
        × IsQuiet (r.events r.write)
        × SharesLog p.log r
  into_keepalive-undone created pool q p h k f a =
      let q' = record q { idle = true } in
      let x = install q' (quieted true p) pool in
      let o =
        owned-install m q' (quieted true p) pool ∙ owned-quieted m true p ∙ validate-owned m p h in
      let c =
        checked_pool-install m q' (quieted true p) pool ∙ checked_pool-record m true p pool ∙ a in
      let e =
        into_keepalive-prepared m created pool false q p h k f
        ∙ ap (undo m p.log) (refused x o)
        ∙ undo-failed m p.log read_event_registration x o c in
      subst
        (λ o.
          (o.0 ≡ some read_event_registration)
          × (o.1.idle ≡ false)
          × IsQuiet (o.1.events o.1.read)
          × IsQuiet (o.1.events o.1.write)
          × SharesLog p.log o.1)
        (sym e) (let again = active_again p.log x in (refl, again.0, again.1, again.2, again.3))
