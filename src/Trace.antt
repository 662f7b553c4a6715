-- ===== src/Trace.antt =====
-- internal/store and internal/trace: what is kept of each request.
pub mod Store
pub mod Summary
pub mod Payload
pub mod Session
pub mod Service
pub mod Retention
