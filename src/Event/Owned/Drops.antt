-- ===== src/Event/Owned/Drops.antt =====
-- src/event/timer.rs and src/event/posted.rs: who drops the values of an event, and what its handler
-- leaves, for any control.
use ngx_rust.Prelude.{
  ℕ, ◌+◌, ◌≡◌, refl, sym, ap, subst, Bool, true, false, ok, if◌then◌else◌, inl, inr, ◌⊎◌,
}
use ngx_rust.Event.Owned.{
  Program, done, request, read_state, write_state, release, World, from_raw, if_valid, drop_values,
  drop_owned, release_owner, run, settle, handle, run_direct,
}

-- The world in which the callback starts.
abbrev pub entered : {E T : Type 0} → World E T → World E T
entered w = record w { callback_alive = true; alive = true }

-- A control that answers as the event does, in step with it.
pub run-run_direct :
    {C E R O T : Type 0} (on : R → C → O × C) (direct : R → E → O × E) (silence : E → E)
    (Follows : C → E → Type 0) (callback : Program R O T) (c : C) (s : T) (w : World E T) (e : E)
    → ((r : R) (c : C) (e : E)
        → Follows c e
        → ((on r c).0 ≡ (direct r e).0) × Follows (on r c).1 (direct r e).1)
    → Follows c e
    → ((run on silence callback c s w).1 ≡ (run_direct direct callback s e).0)
      × Follows (run on silence callback c s w).0 (run_direct direct callback s e).1
unfolding run
run-run_direct on direct silence Follows done c s w e step f = (refl, f)
run-run_direct on direct silence Follows (request r k) c s w e step f =
    let (same, next) = step r c e f in
    subst
      (λ told.
        ((run on silence (k (on r c).0) (on r c).1 s w).1
          ≡ (run_direct direct (k told) s (direct r e).1).0)
        × Follows (run on silence (k (on r c).0) (on r c).1 s w).0
            (run_direct direct (k told) s (direct r e).1).1)
      same
      (run-run_direct on direct silence Follows (k (on r c).0) (on r c).1 s w (direct r e).1 step
        next)
run-run_direct on direct silence Follows (read_state k) c s w e step f =
    run-run_direct on direct silence Follows (k s) c s w e step f
run-run_direct on direct silence Follows (write_state s' k) c s w e step f =
    run-run_direct on direct silence Follows k c s' w e step f
run-run_direct on direct silence Follows (release k) c s w e step f =
    run-run_direct on direct silence Follows k c s (release_owner silence w) e step f

module _ {C E R O : Type 0} (on : R → C → O × C) (silence : E → E) where
  abbrev dropped : {T : Type 0} → World E T → World E T
  dropped w = drop_owned silence (record w { released = true })

  dropped-released : {T : Type 0} (w : World E T) → (dropped w).released ≡ true
  unfolding drop_owned
  dropped-released w = by_callback w.callback_alive
    where
      by_callback :
          (t : Bool)
          → (if t
              then record w { released = true; alive = false; event = silence w.event }
              else drop_values (record w { released = true; event = silence w.event })).released
            ≡ true
      by_callback true = refl
      by_callback false = refl

  run-released :
      {T : Type 0} (callback : Program R O T) (c : C) (s : T) (w : World E T)
      → w.released ≡ true
      → (run on silence callback c s w).2 ≡ w
  unfolding run
  run-released done c s w h = refl
  run-released (request r k) c s w h = run-released (k (on r c).0) (on r c).1 s w h
  run-released (read_state k) c s w h = run-released (k s) c s w h
  run-released (write_state s' k) c s w h = run-released k c s' w h
  run-released (release k) c s w h =
      subst (λ v. (run on silence k c s v).2 ≡ w) (ap (λ t. if t then w else dropped w) (sym h))
        (run-released k c s w h)

  -- A callback drops the owner once, or leaves the world as it was.
  run-dropped :
      {T : Type 0} (callback : Program R O T) (c : C) (s : T) (w : World E T)
      → w.released ≡ false
      → ((run on silence callback c s w).2 ≡ w) ⊎ ((run on silence callback c s w).2 ≡ dropped w)
  unfolding run
  run-dropped done c s w h = inl refl
  run-dropped (request r k) c s w h = run-dropped (k (on r c).0) (on r c).1 s w h
  run-dropped (read_state k) c s w h = run-dropped (k s) c s w h
  run-dropped (write_state s' k) c s w h = run-dropped k c s' w h
  run-dropped (release k) c s w h = inr (
      subst (λ v. (run on silence k c s v).2 ≡ dropped w)
        (ap (λ t. if t then w else dropped w) (sym h))
        (run-released k c s (dropped w) (dropped-released w)))

  release_owner-held :
      {T : Type 0} (w : World E T) → w.released ≡ false → release_owner silence w ≡ dropped w
  release_owner-held w h = ap (λ t. if t then w else dropped w) h

  -- The world after a callback that dropped the owner, and after another.
  abbrev pub gone : {T : Type 0} → World E T → World E T
  gone w =
      drop_values (record w {
        callback_alive = true;
        alive = false;
        released = true;
        event = silence w.event;
      })

  module _ (enter : E → C) (finish : C → E → E) where
    abbrev pub left : {T : Type 0} → C → T → World E T → World E T
    left c s w = record w {
      callback_alive = false;
      alive = true;
      state = s;
      event = finish c w.event;
    }

    settle-World :
        {T : Type 0} (callback : Program R O T) (c : C) (s : T) (w : World E T)
        → w.released ≡ false
        → (settle finish (run on silence callback c s (entered w)) ≡ gone w)
          ⊎ (settle finish (run on silence callback c s (entered w))
              ≡ left
                  (run on silence callback c s (entered w)).0
                  (run on silence callback c s (entered w)).1
                  w)
    unfolding settle drop_owned
    settle-World callback c s w h =
        let after = run on silence callback c s (entered w) in
        elim (run-dropped callback c s (entered w) h) [
          | inl e ↦ inr (ap (λ v. settle finish (after.0, after.1, v)) e)
          | inr e ↦ inl (ap (λ v. settle finish (after.0, after.1, v)) e)
        ]

    abbrev pub returned : {T : Type 0} → Program R O T → World E T → C × T × World E T
    returned callback w = run on silence callback (enter w.event) w.state (entered w)

    pub handle-World :
        {T : Type 0} (align raw : ℕ) (callback : Program R O T) (w : World E T)
        → from_raw align raw ≡ ok tt
        → w.released ≡ false
        → (handle on silence enter finish align raw callback w ≡ gone w)
          ⊎ (handle on silence enter finish align raw callback w
              ≡ left (returned callback w).0 (returned callback w).1 w)
    unfolding handle
    handle-World {T} align raw callback w valid h =
        subst Ends (sym (ap (λ r. if_valid r w (settle finish (returned callback w))) valid))
          (settle-World callback (enter w.event) w.state w h)
      where
        Ends : World E T → Type 0
        Ends v = (v ≡ gone w) ⊎ (v ≡ left (returned callback w).0 (returned callback w).1 w)

    -- The drops after the handler and the owner's own, where it was not released before.
    pub handle-drops :
        {T : Type 0} (align raw : ℕ) (callback : Program R O T) (w : World E T) (Quiet : E → Type 0)
        → ((e : E) → Quiet (silence e))
        → from_raw align raw ≡ ok tt
        → w.released ≡ false
        → ((release_owner silence (handle on silence enter finish align raw callback w)).state_drops
            ≡ w.state_drops + 1)
          × ((release_owner silence
                (handle on silence enter finish align raw callback w)).callback_drops
              ≡ w.callback_drops + 1)
          × Quiet
              (release_owner silence (handle on silence enter finish align raw callback w)).event
    unfolding drop_owned
    handle-drops {T} align raw callback w Quiet quiet valid h =
        elim (handle-World align raw callback w valid h) [
          | inl e ↦ subst Once (sym e) (refl, refl, quiet w.event)
          | inr e ↦ subst Once (sym e) (kept (returned callback w).0 (returned callback w).1)
        ]
      where
        Once : World E T → Type 0
        Once v =
            ((release_owner silence v).state_drops ≡ w.state_drops + 1)
            × ((release_owner silence v).callback_drops ≡ w.callback_drops + 1)
            × Quiet (release_owner silence v).event

        kept : (c : C) (s : T) → Once (left c s w)
        kept c s =
            let held = release_owner-held (left c s w) h in
            (
              ap (λ v. v.state_drops) held,
              ap (λ v. v.callback_drops) held,
              subst (λ v. Quiet v.event) (sym held) (quiet (left c s w).event),
            )

    -- A callback that keeps the owner leaves what the requests, made of the event, would.
    pub handle-run_direct :
        {T : Type 0} (direct : R → E → O × E) (Follows : E → C → E → Type 0) (align raw : ℕ)
        (callback : Program R O T) (w : World E T) (Same : E → E → Type 0)
        → ((r : R) (c : C) (e : E)
            → Follows w.event c e
            → ((on r c).0 ≡ (direct r e).0) × Follows w.event (on r c).1 (direct r e).1)
        → ((c : C) (e : E) → Follows w.event c e → Same (finish c w.event) e)
        → Follows w.event (enter w.event) w.event
        → from_raw align raw ≡ ok tt
        → w.released ≡ false
        → (handle on silence enter finish align raw callback w).released ≡ false
        → ((handle on silence enter finish align raw callback w).state
            ≡ (run_direct direct callback w.state w.event).0)
          × Same
              (handle on silence enter finish align raw callback w).event
              (run_direct direct callback w.state w.event).1
    handle-run_direct {T} direct Follows align raw callback w Same step ends start valid h held =
        elim (handle-World align raw callback w valid h) [
          | inl e ↦ absurd (cc (e, held))
          | inr e ↦ subst Ends (sym e) (
            followed.0,
            ends (returned callback w).0 (run_direct direct callback w.state w.event).1 followed.1,
          )
        ]
      where
        Ends : World E T → Type 0
        Ends v =
            (v.state ≡ (run_direct direct callback w.state w.event).0)
            × Same v.event (run_direct direct callback w.state w.event).1

        followed :
            ((returned callback w).1 ≡ (run_direct direct callback w.state w.event).0)
            × Follows w.event (returned callback w).0 (run_direct direct callback w.state w.event).1
        followed =
            run-run_direct on direct silence (Follows w.event) callback (enter w.event) w.state
              (entered w) w.event step start
