-- ===== src/Async/Spawn/Scheduler/Wakes.antt =====
-- src/async_/spawn/scheduler.rs: the wakes that arrive while the worker is processing.
use ngx_rust.Prelude.{
  ℕ, ◌≡◌, refl, sym, ap, ◌∙◌, Bool, true, false, ◌&&◌, ◌||◌, not, some, List, [], ◌∷◌, ◌++◌, arith,
  ◌==◌,
}
use mathlib.Core.Path.{ap₂}
use mathlib.Core.List.{append_assoc, append-nil}
use ngx_rust.Async.Spawn.Scheduler.{
  Scheduler, queue, accepted, cancellation, begin_processing, finish_processing, SchedulerPhase,
  running, stopping, stopped, is_empty, ScheduleAction, WakeAction,
}

-- A wake or a request for cancellation: the thread, and the runnable or the control.
pub data Wake : Type 0 where
  wakes cancels : ℕ → ℕ → Wake

unfoldable pub wake : Wake → Scheduler → Scheduler
wake (wakes current r) s = (queue current r s).1
wake (cancels current c) s = (cancellation current c s).1

unfoldable pub wake_all : List Wake → Scheduler → Scheduler
wake_all [] s = s
wake_all (w ∷ ws) s = wake_all ws (wake w s)

-- Whether the scheduler leaves it to the worker to notice the wake.
unfoldable pub is_deferred : Wake → Scheduler → Bool
is_deferred (wakes current r) s = elim (queue current r s).0 [
  | ScheduleAction.deferred ↦ true
  | _ ↦ false
]
is_deferred (cancels current c) s = elim (cancellation current c s).0 [
  | WakeAction.deferred ↦ true
  | _ ↦ false
]

abbrev pub runnables : List Wake → List ℕ
runnables [] = []
runnables (wakes t r ∷ ws) = r ∷ runnables ws
runnables (cancels t c ∷ ws) = runnables ws

abbrev pub controls : List Wake → List ℕ
controls [] = []
controls (wakes t r ∷ ws) = controls ws
controls (cancels t c ∷ ws) = c ∷ controls ws

-- The state while the worker is processing.
abbrev busy : Scheduler → Scheduler
busy s = record s { phase = running; processing = true }

abbrev with_wakes : List Wake → Scheduler → Scheduler
with_wakes ws s = record s {
  queue = s.queue ++ runnables ws;
  cancellations = s.cancellations ++ controls ws;
}

wake_all-busy : (ws : List Wake) (s : Scheduler) → wake_all ws (busy s) ≡ busy (with_wakes ws s)
unfolding wake_all wake queue cancellation
wake_all-busy [] s =
    ap₂ (λ q c. busy (record s { queue = q; cancellations = c })) (sym (append-nil s.queue))
      (sym (append-nil s.cancellations))
wake_all-busy (wakes t r ∷ ws) s =
    wake_all-busy ws (record s { queue = s.queue ++ r ∷ [] })
    ∙ ap (λ q. busy (record s { queue = q; cancellations = s.cancellations ++ controls ws }))
        (append_assoc s.queue (r ∷ []) (runnables ws))
wake_all-busy (cancels t c ∷ ws) s =
    wake_all-busy ws (record s { cancellations = s.cancellations ++ c ∷ [] })
    ∙ ap (λ q. busy (record s { queue = s.queue ++ runnables ws; cancellations = q }))
        (append_assoc s.cancellations (c ∷ []) (controls ws))

abbrev pub all_deferred : List Wake → Scheduler → Bool
all_deferred [] s = true
all_deferred (w ∷ ws) s = is_deferred w s && all_deferred ws (wake w s)

wake_all-deferred : (ws : List Wake) (s : Scheduler) → all_deferred ws (busy s) ≡ true
unfolding is_deferred wake queue cancellation accepted
wake_all-deferred [] s = refl
wake_all-deferred (wakes t r ∷ ws) s = wake_all-deferred ws (record s { queue = s.queue ++ r ∷ [] })
wake_all-deferred (cancels t c ∷ ws) s =
    wake_all-deferred ws (record s { cancellations = s.cancellations ++ c ∷ [] })

abbrev pub is_none : List Wake → Bool
is_none [] = true
is_none (w ∷ ws) = false

emptied :
    (ws : List Wake)
    → (not (is_empty (runnables ws)) || not (is_empty (controls ws))) ≡ not (is_none ws)
emptied [] = refl
emptied (wakes t r ∷ ws) = refl
emptied (cancels t c ∷ ws) = by_runnables (runnables ws)
  where
    by_runnables : (rs : List ℕ) → (not (is_empty rs) || true) ≡ true
    by_runnables [] = refl
    by_runnables (r ∷ rs) = refl

begin_processing-some :
    (current : ℕ) (s : Scheduler) (p : SchedulerPhase) (taken : List ℕ × List ℕ) (s' : Scheduler)
    → begin_processing current (record s { phase = p }) ≡ some (taken, s')
    → (taken ≡ (s.cancellations, s.queue))
      × ((s.owner == current) ≡ true)
      × (s' ≡ busy (record s { queue = []; cancellations = [] }))
unfolding begin_processing
begin_processing-some current s running taken s' h = ground arith
begin_processing-some current s stopping taken s' h = cc
begin_processing-some current s stopped taken s' h = cc

-- The worker begins to process, and until it finishes other threads wake tasks and ask for
-- cancellations, any number of each in any order. All of these are left to the worker, which took
-- what was queued before; it finds them in their order, and is to process again exactly if there
-- were any.
pub finish_processing-wake_all :
    (current : ℕ) (s s' : Scheduler) (taken : List ℕ × List ℕ) (ws : List Wake)
    → begin_processing current s ≡ some (taken, s')
    → (taken ≡ (s.cancellations, s.queue))
      × (all_deferred ws s' ≡ true)
      × ((wake_all ws s').queue ≡ runnables ws)
      × ((wake_all ws s').cancellations ≡ controls ws)
      × ((finish_processing current (wake_all ws s')).0 ≡ not (is_none ws))
finish_processing-wake_all current s s' taken ws h =
    let (took, owner, e) = begin_processing-some current s s.phase taken s' h in
    let rest = record s { queue = []; cancellations = [] } in
    let woken = ap (wake_all ws) e ∙ wake_all-busy ws rest in
    (
      took,
      ap (all_deferred ws) e ∙ wake_all-deferred ws rest,
      ap (λ x. x.queue) woken,
      ap (λ x. x.cancellations) woken,
      ap (λ x. (finish_processing current x).0) woken ∙ again owner,
    )
  where
    again :
        (s.owner == current) ≡ true
        → (finish_processing current
            (busy (with_wakes ws (record s { queue = []; cancellations = [] })))).0
          ≡ not (is_none ws)
    again owner = unfold finish_processing in rw owner (emptied ws)
