-- ===== src/Http/SubRequest/Future.antt =====
-- src/http/subrequest.rs: the completion of a subrequest through its handler, the guard that the
-- handler owns, and the future.
pub mod Resolved
use ngx_rust.Prelude.{
  ℕ, ◌+◌, Bool, true, false, ◌&&◌, ◌||◌, not, Option, none, some, ◌==◌, if◌then◌else◌, Result, ok,
  err,
}
use ngx_rust.Http.SubRequest.{SubRequestError, canceled}

-- `AsyncSubRequestState`.
pub record State (T : Type 0) : Type 0 where
  pub output : Option (Result SubRequestError T)
  pub waker : Option ℕ
  pub consumed : Bool
  pub canceled : Bool

-- The state, whether the pool's handler is still there, with the guard in it, and the future. The
-- last three fields are not in the source: the waker of the future's last poll, if that answered
-- `Pending` and this waker was not called since, the
-- runs of the handler, and the answers of the future.
pub record World (T : Type 0) : Type 0 where
  pub state : State T
  pub handler : Bool
  pub future_alive : Bool
  pub asleep : Option ℕ
  pub runs : ℕ
  pub delivered : ℕ

pub data Poll (T : Type 0) : Type 0 where
  is_pending panics : Poll T
  is_ready : Result SubRequestError T → Poll T

-- What sleeps with the waker `j`, when the waker `k` is called: another waker does not wake it.
abbrev pub roused : ℕ → Option ℕ → Option ℕ
roused k none = none
roused k (some j) = if j == k then none else some j

module _ {T : Type 0} where
  -- `AsyncSubRequestState::new`, once the subrequest is made.
  abbrev pub fresh : World T
  fresh = record {
    state = record { output = none; waker = none; consumed = false; canceled = false };
    handler = true;
    future_alive = true;
    asleep = none;
    runs = 0;
    delivered = 0;
  }

  abbrev pub has_output : Option (Result SubRequestError T) → Bool
  has_output none = false
  has_output (some r) = true

  -- `AsyncSubRequestState::complete`: the waker that it returns.
  unfoldable pub complete : Result SubRequestError T → State T → Option ℕ × State T
  complete r s =
      if s.canceled || s.consumed || has_output s.output
      then (none, s)
      else (s.waker, record s { output = some r; waker = none })

  abbrev woken : World T → Option ℕ × State T → World T
  woken w (none, s) = record w { state = s }
  woken w (some k, s) = record w { state = s; asleep = roused k w.asleep }

  -- `AsyncSubRequestGuard::finish`, and its destructor while it is active.
  unfoldable pub finish : T → World T → World T
  finish out w = woken w (complete (ok out) w.state)

  unfoldable pub drop_guard : World T → World T
  drop_guard w = woken w (complete (err canceled) w.state)

  abbrev polled : ℕ → Option (Result SubRequestError T) → World T → Poll T × World T
  polled k (some r) w =
      let taken = record w.state { output = none; consumed = true } in
      (is_ready r, record w { state = taken; asleep = none; delivered = w.delivered + 1 })
  polled k none w =
      (is_pending, record w { state = record w.state { waker = some k }; asleep = some k })

  -- `SubRequestFuture::poll`, with the waker of its context.
  unfoldable pub poll : ℕ → World T → Poll T × World T
  poll k w = if w.state.consumed then (panics, w) else polled k w.state.output w

  -- `impl Drop for SubRequestFuture`.
  unfoldable pub drop_future : World T → World T
  drop_future w =
      let w' = record w { future_alive = false; asleep = none } in
      if w.state.consumed
      then w'
      else record w' { state = record w.state { canceled = true; output = none; waker = none } }

-- How nginx's call of the handler goes: whether the request passes the checks before the callback,
-- whether the handler itself drops the future, and the handler's output.
pub record Run (T : Type 0) : Type 0 where
  pub enters : Bool
  pub drops_future : Bool
  pub output : T

module _ {T : Type 0} where
  abbrev called : Run T → World T → World T
  called r w =
      let w' = record w { runs = w.runs + 1 } in
      finish r.output (if r.drops_future && w.future_alive then drop_future w' else w')

  -- `run_handler`, with the closure of `build_async`: the handler is taken from the pool, and what
  -- is not called is dropped with its guard.
  unfoldable pub run_handler : Run T → World T → World T
  run_handler r w =
      let w' = record w { handler = false } in
      if not w.handler
      then w
      else (if not r.enters || w.state.canceled then drop_guard w' else called r w')

  -- The pool's cleanup drops a handler that is still there.
  unfoldable pub destroy_pool : World T → World T
  destroy_pool w = if w.handler then drop_guard (record w { handler = false }) else w
