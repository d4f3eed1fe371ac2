-- ===== src/Event.antt =====
-- src/event: the peers of outgoing connections, timers and posted events.
pub mod Keepalive
pub mod Owned
pub mod Timer
pub mod Posted
