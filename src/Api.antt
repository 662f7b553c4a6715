-- ===== src/Api.antt =====
-- internal/api: the HTTP interface for clients and the one for the administrator.
pub mod Chunks
pub mod Stream
pub mod Chat
pub mod Request
pub mod Handler
pub mod Console
pub mod Admin
