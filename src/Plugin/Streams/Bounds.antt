-- ===== src/Plugin/Streams/Bounds.antt =====
-- internal/plugin/runtime.go: how many events wait in a channel for the client.
use providerapi.Prelude.{ℕ, ◌+◌, ◌≤◌, length}
use providerapi.Dict.{Dict}
use providerapi.Plugin.Streams.{Channel, Streams}
use providerapi.Plugin.Streams.Ownership.{taken}

-- No event was received that was not sent, and at most 64 wait.
pub record Fits (ch : Channel) : Type 0 where
  pub received : ch.taken ≤ length ch.sent
  pub room : length ch.sent ≤ ch.taken + 64

abbrev HeapFits : (ℕ → Channel) → Type 0
HeapFits heap = (n : ℕ) → Fits (heap n)
