-- ===== src/Compat.antt =====
-- plugins/openai-compat/main.go: the plugin for providers with OpenAI's interface.
pub mod Body
pub mod Chunk
pub mod Stream
pub mod Http
pub mod Exchange
