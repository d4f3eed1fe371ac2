-- ===== src/Async/Spawn.antt =====
-- src/async_/spawn: the lifecycle of a task, the scheduler's queues, and the worker's tasks.
mod Tests
pub mod Control
pub mod Task
pub mod Scheduler
pub mod Notification
pub mod Lease
pub mod Table
