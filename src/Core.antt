-- ===== src/Core.antt =====
-- src/core: the parts of nginx's base types that the other components check against.
pub mod SlabCheck
pub mod ProxyProtocol
pub mod Buffer
pub mod Chain
