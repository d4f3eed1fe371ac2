-- ===== src/Event/Keepalive/State.antt =====
-- src/event/peer/keepalive.rs: the state of the two events and of the loggers.
use ngx_rust.Prelude.{
  ℕ, ◌≡◌, refl, sym, subst, ◌⊎◌, inl, inr, Bool, false, ◌==◌, put, put-same, Bool-cases, ==_iff,
  put-other,
}
use native.Mathlib.Decide.{ℕ_discrete}
use ngx_rust.Event.Keepalive.{Peer, Event, inert, quieted, relogged, quiet, log_to}

-- An update of the read event and then of the write event, which may be one event.
pub both :
    {A : Type 0} (P : A → Type 0) (f g : A → A) (r w : ℕ) (ev : ℕ → A)
    → P (f (ev r))
    → P (g (ev w))
    → ((e : A) → P e → P (g e))
    → let ev' = put r (f (ev r)) ev in P (put w (g (ev' w)) ev' r) × P (put w (g (ev' w)) ev' w)
both P f g r w ev hr hw stable = elim (ℕ_discrete r w) [
  | yes e ↦ (
    subst (λ x. P (put w (g (put r (f (ev r)) ev w)) (put r (f (ev r)) ev) x)) (sym e) at_w,
    at_w,
  )
  | no n ↦ (subst P (sym (put-other w _ _ r n)) (subst P (sym (put-same r (f (ev r)) ev)) hr), at_w)
]
  where
    at_w : P (put w (g (put r (f (ev r)) ev w)) (put r (f (ev r)) ev) w)
    at_w =
        subst P (sym (put-same w (g (put r (f (ev r)) ev w)) (put r (f (ev r)) ev)))
          (elim (ℕ_discrete w r) [
            | yes e ↦ stable _ (
                subst (λ x. P (put r (f (ev r)) ev x)) (sym e)
                  (subst P (sym (put-same r (f (ev r)) ev)) hr))
            | no n ↦ subst (λ x. P (g x)) (sym (put-other r (f (ev r)) ev w n)) hw
          ])

-- Both events are quiet: no timer is set, and their handlers do nothing.
abbrev pub IsQuiet : Event → Type 0
IsQuiet e = (e.timer_set ≡ false) × (e.handler ≡ inert)

-- The connection and what hangs on it log to one place.
abbrev pub SharesLog : ℕ → Peer → Type 0
SharesLog log p =
    (p.log ≡ log)
    × (p.connection_log ≡ log)
    × ((p.events p.read).log ≡ log)
    × ((p.events p.write).log ≡ log)
    × ((p.pool ≡ 0) ⊎ (p.pool_log p.pool ≡ log))

pub quieted-IsQuiet :
    (idle : Bool) (p : Peer)
    → let p' = quieted idle p in IsQuiet (p'.events p.read) × IsQuiet (p'.events p.write)
quieted-IsQuiet idle p =
    both IsQuiet quiet quiet p.read p.write p.events (refl, refl) (refl, refl) (λ e h. (refl, refl))

pub relogged-IsQuiet :
    (log : ℕ) (p : Peer)
    → IsQuiet (p.events p.read)
    → IsQuiet (p.events p.write)
    → let p' = relogged log p in IsQuiet (p'.events p'.read) × IsQuiet (p'.events p'.write)
relogged-IsQuiet log p hr hw =
    let quiet' = both IsQuiet (log_to log) (log_to log) p.read p.write p.events hr hw (λ e h. h) in
    elim (Bool-cases (p.pool == 0)) [ inl e ↦ rw e quiet' | inr e ↦ rw e quiet' ]

pub relogged-SharesLog : (log : ℕ) (p : Peer) → SharesLog log (relogged log p)
relogged-SharesLog log p =
    let (read, write) =
      both (λ e. e.log ≡ log) (log_to log) (log_to log) p.read p.write p.events refl refl
        (λ e h. refl) in
    elim (Bool-cases (p.pool == 0)) [
      | inl e ↦ rw e (refl, refl, read, write, inl ((==_iff p.pool 0).0 e))
      | inr e ↦ rw e (refl, refl, read, write, inr (put-same p.pool log p.pool_log))
    ]

pub relogged_rest :
    (log : ℕ) (p : Peer) → ((relogged log p).idle ≡ p.idle) × ((relogged log p).data_at ≡ p.data_at)
relogged_rest log p = elim (Bool-cases (p.pool == 0)) [
  | inl e ↦ rw e (refl, refl)
  | inr e ↦ rw e (refl, refl)
]
