-- ===== src/Collections.antt =====
-- src/collections and nginx-sys/src/core: intrusive containers.
pub mod NgxQueue
pub mod SlabQueue
