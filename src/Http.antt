-- ===== src/Http.antt =====
-- src/http: HTTP requests.
pub mod AsyncRequest
pub mod Filter
pub mod Request
pub mod SubRequest
