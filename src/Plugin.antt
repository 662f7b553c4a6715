-- ===== src/Plugin.antt =====
-- internal/plugin/runtime.go: a running plugin instance and the manager of the instances.
pub mod Streams
pub mod Instance
pub mod Calls
pub mod Manager
