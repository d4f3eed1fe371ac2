-- ===== src/Async.antt =====
-- src/async_: the worker's scheduler and its tasks, and the resolution of names.
pub mod Resolver
pub mod Sleep
pub mod Spawn
