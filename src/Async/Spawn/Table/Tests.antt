-- ===== src/Async/Spawn/Table/Tests.antt =====
-- src/async_/spawn/scheduler.rs: four tasks, of which the first and one that is not registered are
-- reported as completed.
use ngx_rust.Prelude.{◌≡◌, refl, [], ◌∷◌}
use ngx_rust.Async.Spawn.Table.{
  Table, take_task, take_registered_tasks, take_completed, task_completed,
}

abbrev table : Table
table = record { tasks = 11 ∷ 12 ∷ 13 ∷ 14 ∷ []; completed = 11 ∷ 15 ∷ [] }

-- The last task takes the place of the first.
take_completed-table :
    ((take_completed table).0 ≡ 11 ∷ [])
    × ((take_completed table).1.tasks ≡ 14 ∷ 12 ∷ 13 ∷ [])
    × ((task_completed 11 table).completed ≡ 11 ∷ 15 ∷ [])
unfolding take_completed take_registered_tasks take_task task_completed
take_completed-table = (refl, refl, refl)
