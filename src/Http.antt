-- ===== src/Http.antt =====
-- internal/adapters/inbound/http: error responses, and which requests are logged.
pub mod Errors
pub mod Context
pub mod Handlers
pub mod Routes
pub mod Logging
pub mod RequestLog
pub mod Frontend
