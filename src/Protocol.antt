-- ===== src/Protocol.antt =====
-- internal/protocol: the canonical requests, responses, events and errors.
pub mod Types
pub mod Errors
pub mod Reasoning
pub mod Content
pub mod Tool
