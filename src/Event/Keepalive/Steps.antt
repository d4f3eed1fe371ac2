-- ===== src/Event/Keepalive/Steps.antt =====
-- src/event/peer/keepalive.rs: the steps of a transfer, once its checks have passed.
use ngx_rust.Prelude.{ℕ, ◌≡◌, refl, ap, ◌∙◌, Bool, true, false, none, some, ok, err, ◌>>◌}
use ngx_rust.Event.Keepalive.{
  Peer, Platform, Preparation, Check, EventPeerConnectionError, owned, checked_pool,
  checked_plain_connection, checked_events, quiesce, quieted, update_log, relogged,
  validate_keepalive, stale, prepare, prepare_pool, prepared, install, register_keepalive_read,
  into_keepalive, into_connection, undo, follow,
}

module _ (m : Platform) where
  pub validate-owned : (p : Peer) → validate_keepalive m p ≡ ok tt → owned m p ≡ ok tt
  unfolding validate_keepalive
  validate-owned p h = by_check (owned m p) h
    where
      by_check :
          (c : Check)
          → (do c; stale (p.events p.read) (p.events p.write) p.error) ≡ ok tt
          → c ≡ ok tt
      by_check (ok u) h = refl
      by_check (err e) h = cc

  -- The checks read nothing that the transfers change.
  pub owned-quieted : (idle : Bool) (p : Peer) → owned m (quieted idle p) ≡ owned m p
  unfolding owned checked_plain_connection checked_events
  owned-quieted idle p = refl

  pub checked_pool-quieted :
      (idle : Bool) (p : Peer) → checked_pool m (quieted idle p) ≡ checked_pool m p
  unfolding checked_pool
  checked_pool-quieted idle p = refl

  pub into_connection-valid :
      (log : ℕ) (p : Peer)
      → validate_keepalive m p ≡ ok tt
      → checked_pool m p ≡ ok tt
      → into_connection m log p ≡ (none, relogged log (quieted false p))
  unfolding into_connection quiesce update_log
  into_connection-valid log p h k =
      rw
        (
          h,
          validate-owned p h,
          owned-quieted false p,
          validate-owned p h,
          checked_pool-quieted false p,
          k,
        )
        refl

  pub into_keepalive-valid :
      (created : ℕ) (registered : Bool) (q : Preparation) (p : Peer)
      → validate_keepalive m p ≡ ok tt
      → into_keepalive m created registered q p
        ≡ follow
            (prepare m created (record q { idle = true }) (quieted true p))
            (λ p'. undo m p.log (register_keepalive_read m registered p'))
  unfolding into_keepalive quiesce
  into_keepalive-valid created registered q p h = rw (h, validate-owned p h) refl

  pub prepare_pool-quieted :
      (created : ℕ) (q : Preparation) (idle : Bool) (p : Peer)
      → prepare_pool m created (record q { idle = idle }) (quieted idle p)
        ≡ prepare_pool m created q p
  unfolding prepare_pool
  prepare_pool-quieted created q idle p = refl

  pub prepare-quieted :
      (created : ℕ) (q : Preparation) (p : Peer)
      → owned m p ≡ ok tt
      → checked_pool m p ≡ ok tt
      → prepare m created (record q { idle = true }) (quieted true p)
        ≡ prepared (prepare_pool m created q p) (record q { idle = true }) (quieted true p)
  unfolding prepare
  prepare-quieted created q p h k =
      rw
        (
          owned-quieted true p,
          h,
          checked_pool-quieted true p,
          k,
          prepare_pool-quieted created q true p,
        )
        refl

  pub into_keepalive-prepared :
      (created pool : ℕ) (registered : Bool) (q : Preparation) (p : Peer)
      → validate_keepalive m p ≡ ok tt
      → checked_pool m p ≡ ok tt
      → prepare_pool m created q p ≡ ok pool
      → into_keepalive m created registered q p
        ≡ undo m p.log (
            register_keepalive_read m registered
              (install (record q { idle = true }) (quieted true p) pool))
  into_keepalive-prepared created pool registered q p h k f =
      into_keepalive-valid created registered q p h
      ∙ ap (λ o. follow o (λ p'. undo m p.log (register_keepalive_read m registered p'))) done
    where
      done :
          prepare m created (record q { idle = true }) (quieted true p)
          ≡ (none, install (record q { idle = true }) (quieted true p) pool)
      done =
          prepare-quieted created q p (validate-owned p h) k
          ∙ ap (λ o. prepared o (record q { idle = true }) (quieted true p)) f

  pub owned-install :
      (q : Preparation) (p : Peer) (pool : ℕ) → owned m (install q p pool) ≡ owned m p
  unfolding owned checked_plain_connection checked_events
  owned-install q p pool = refl

  pub checked_pool-install :
      (q : Preparation) (p : Peer) (pool : ℕ)
      → checked_pool m (install q p pool) ≡ checked_pool m (record p { pool = pool })
  unfolding checked_pool
  checked_pool-install q p pool = refl

  pub checked_pool-record :
      (idle : Bool) (p : Peer) (pool : ℕ)
      → checked_pool m (record (quieted idle p) { pool = pool })
        ≡ checked_pool m (record p { pool = pool })
  unfolding checked_pool
  checked_pool-record idle p pool = refl

  pub undo-failed :
      (log : ℕ) (e : EventPeerConnectionError) (p : Peer)
      → owned m p ≡ ok tt
      → checked_pool m p ≡ ok tt
      → undo m log (some e, p) ≡ (some e, relogged log (quieted false p))
  unfolding quiesce update_log
  undo-failed log e p h k = rw (h, owned-quieted false p, h, checked_pool-quieted false p, k) refl
