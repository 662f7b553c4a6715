-- ===== src/Tests.antt =====
-- Concrete inputs at which the theorems apply.
mod Streams
mod Api
mod Setup
mod Plugins
mod Traces
mod Requests
mod Handler
mod Mock
mod Exchange
mod Commands
mod Relay
mod Traffic
mod Serve
mod Concurrent
mod Busy
