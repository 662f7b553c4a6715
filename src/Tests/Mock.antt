-- ===== src/Tests/Mock.antt =====
-- Requests to the mock plugin.
use providerapi.Prelude.{ℕ, String, Bool, false, none, List, [], ◌∷◌, eqb}
use providerapi.Json.{Json}
use providerapi.Protocol.Types.{CompletionRequest, StreamEvent}
use providerapi.Mock.{stream}
use providerapi.Sdk.Forward.{forwarded}

abbrev pub asked : CompletionRequest
asked = record {
  request_id = "req_1";
  model = "mock-tool";
  messages = [];
  tools = record { typ = "function"; function = none; custom = none; raw = none } ∷ [];
  tool_choice = none;
  stream = false;
  temperature = none;
  max_tokens = none;
  reasoning = "default";
  extra = [];
}

abbrev decimal : ℕ → String
decimal _ = "1"

abbrev print : Json → String
print _ = "{}"

abbrev later : ℕ → Bool
later i = eqb i 2

abbrev parts : List StreamEvent
parts = forwarded (stream decimal print later asked)
