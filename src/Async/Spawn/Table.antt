-- ===== src/Async/Spawn/Table.antt =====
-- src/async_/spawn/scheduler.rs: the worker's table of registered tasks. A registered task is the number
-- of its control; `Vec::swap_remove` is the standard library's, as it documents it.
mod Tests
pub mod Removed
use ngx_rust.Prelude.{
  ℕ, zero, suc, ◌+◌, Bool, true, false, Option, none, some, List, [], ◌∷◌, ◌++◌, ◌==◌,
  if◌then◌else◌,
}

-- `WorkerScheduler::tasks` and `completed`.
pub record Table : Type 0 where
  pub tasks : List ℕ
  pub completed : List ℕ

abbrev pub position : ℕ → List ℕ → Option ℕ
position c [] = none
position c (x ∷ xs) =
    let rest = position c xs in
    if x == c then some 0 else elim rest [ none ↦ none | some i ↦ some (suc i) ]

abbrev pub init : List ℕ → List ℕ
init [] = []
init (x ∷ []) = []
init (x ∷ y ∷ xs) = x ∷ init (y ∷ xs)

abbrev pub last : ℕ → List ℕ → ℕ
last x [] = x
last x (y ∷ ys) = last y ys

abbrev pub set : ℕ → ℕ → List ℕ → List ℕ
set i v [] = []
set zero v (x ∷ xs) = v ∷ xs
set (suc i) v (x ∷ xs) = x ∷ set i v xs

-- The last element takes the place of the one that is removed.
abbrev pub swap_remove : ℕ → List ℕ → List ℕ
swap_remove i [] = []
swap_remove i (x ∷ xs) = set i (last x xs) (init (x ∷ xs))

unfoldable pub register_task : ℕ → Table → Table
register_task c t = record t { tasks = t.tasks ++ (c ∷ []) }

abbrev pub taken_at : ℕ → Option ℕ → Table → Option ℕ × Table
taken_at c none t = (none, t)
taken_at c (some i) t = (some c, record t { tasks = swap_remove i t.tasks })

unfoldable pub take_task : ℕ → Table → Option ℕ × Table
take_task c t = taken_at c (position c t.tasks) t

abbrev pub is_some : Option ℕ → Bool
is_some none = false
is_some (some i) = true

unfoldable pub task_completed : ℕ → Table → Table
task_completed c t =
    if is_some (position c t.completed) then t else record t { completed = t.completed ++ (c ∷ []) }

abbrev pub push_some : Option ℕ → List ℕ → List ℕ
push_some none xs = xs
push_some (some x) xs = x ∷ xs

-- The tasks of the controls that are registered, in the controls' order.
unfoldable pub take_registered_tasks : List ℕ → Table → List ℕ × Table
take_registered_tasks [] t = ([], t)
take_registered_tasks (c ∷ cs) t =
    let taken = take_task c t in
    let rest = take_registered_tasks cs taken.1 in (push_some taken.0 rest.0, rest.1)

unfoldable pub take_completed : Table → List ℕ × Table
take_completed t = take_registered_tasks t.completed (record t { completed = [] })

unfoldable pub take_all_tasks : Table → List ℕ × Table
take_all_tasks t = (t.tasks, record { tasks = []; completed = [] })
