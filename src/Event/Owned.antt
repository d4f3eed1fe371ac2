-- ===== src/Event/Owned.antt =====
-- src/event/timer.rs and src/event/posted.rs, what the two share: an event that owns a state and a
-- callback, the handler that moves both out while the callback runs, and the destructor, which the
-- callback may run. A callback is the tree of what it does.
pub mod Drops
use ngx_rust.Prelude.{
  ℕ, zero, suc, ◌+◌, ◌%◌, Bool, true, false, not, ◌==◌, if◌then◌else◌, Result, ok, err, ◌>>=◌, ◌>>◌,
  fail_if,
}
use ngx_rust.Event.Keepalive.{EventError, null_event, misaligned_event}

-- A callback makes requests `R` of its control, which answers them by an `O`, reads and writes its
-- state, or releases the owner of its event.
pub data Program (R O T : Type 0) : Type 0 where
  done : Program R O T
  request : R → (O → Program R O T) → Program R O T
  read_state : (T → Program R O T) → Program R O T
  write_state : T → Program R O T → Program R O T
  release : Program R O T → Program R O T

-- The owner's event and state, its `callback_alive` pointer as whether it is not null, the handler's
-- `alive`, whether the owner was dropped, and how often its values were.
pub record World (E T : Type 0) : Type 0 where
  pub event : E
  pub state : T
  pub callback_alive : Bool
  pub alive : Bool
  pub released : Bool
  pub state_drops : ℕ
  pub callback_drops : ℕ

-- `EventRef::from_raw`.
unfoldable pub from_raw : ℕ → ℕ → Result EventError (Unit {0})
from_raw align raw = do
  fail_if (raw == 0) null_event
  fail_if (not (raw % align == 0)) misaligned_event

-- `let Ok(event) = … else { return }`.
abbrev pub if_valid : {A : Type 0} → Result EventError (Unit {0}) → A → A → A
if_valid (err e) unchanged changed = unchanged
if_valid (ok u) unchanged changed = changed

abbrev pub drop_values : {E T : Type 0} → World E T → World E T
drop_values w = record w { state_drops = w.state_drops + 1; callback_drops = w.callback_drops + 1 }

-- `Drop::drop`, where `silence` takes the event from nginx, on both of its ways.
unfoldable pub drop_owned : {E T : Type 0} → (E → E) → World E T → World E T
drop_owned silence w =
    if w.callback_alive
    then record w { alive = false; event = silence w.event }
    else drop_values (record w { event = silence w.event })

abbrev pub release_owner : {E T : Type 0} → (E → E) → World E T → World E T
release_owner silence w =
    if w.released then w else drop_owned silence (record w { released = true })

unfoldable pub run :
    {C E R O T : Type 0}
    → (R → C → O × C)
    → (E → E)
    → Program R O T
    → C
    → T
    → World E T
    → C × T × World E T
run on silence done c s w = (c, s, w)
run on silence (request r k) c s w = let told = on r c in run on silence (k told.0) told.1 s w
run on silence (read_state k) c s w = run on silence (k s) c s w
run on silence (write_state s' k) c s w = run on silence k c s' w
run on silence (release k) c s w = run on silence k c s (release_owner silence w)

-- What follows the callback's return: `finish` applies the control to an event that is alive.
unfoldable pub settle : {C E T : Type 0} → (C → E → E) → C × T × World E T → World E T
settle finish (c, s, w) =
    if not w.alive
    then drop_values w
    else record w { callback_alive = false; state = s; event = finish c w.event }

-- The handler that nginx calls.
unfoldable pub handle :
    {C E R O T : Type 0}
    → (R → C → O × C)
    → (E → E)
    → (E → C)
    → (C → E → E)
    → ℕ
    → ℕ
    → Program R O T
    → World E T
    → World E T
handle on silence enter finish align raw callback w =
    let w' = record w { callback_alive = true; alive = true } in
    if_valid (from_raw align raw) w
      (settle finish (run on silence callback (enter w.event) w.state w'))

-- A callback whose requests are made of the event itself.
abbrev pub run_direct : {E R O T : Type 0} → (R → E → O × E) → Program R O T → T → E → T × E
run_direct on done s e = (s, e)
run_direct on (request r k) s e = let told = on r e in run_direct on (k told.0) s told.1
run_direct on (read_state k) s e = run_direct on (k s) s e
run_direct on (write_state s' k) s e = run_direct on k s' e
run_direct on (release k) s e = run_direct on k s e
