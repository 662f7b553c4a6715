-- ===== src/Api/Chat.antt =====
-- internal/api/openai.go: chatCompletions, up to the call of the plugin, and the answer that is not
-- streamed.
pub mod Extra
pub mod Routing
pub mod Refusal
use providerapi.Prelude.{String, Bool, Option, none, some, List, [], ◌∷◌, if◌then◌else◌}
use providerapi.Prelude.Int.{ℤ}
use providerapi.Text.{is_empty, ◌<>◌}
use providerapi.Dict.{Dict, remove}
use providerapi.Json.{Json}
use providerapi.Protocol.Types.{
  CompletionRequest, Message, Tool, ProviderError, ReasoningLevel, reasoning_default,
}
use providerapi.Protocol.Errors.{invalid_request, new_provider_error}
use providerapi.Protocol.Reasoning.{parse_reasoning_level}
use providerapi.Config.{Config}
use providerapi.Model.{Resolved, resolved, refused, resolve}
use providerapi.Plugin.Instance.{Instance}
use providerapi.Plugin.Manager.{get_instance}

-- chatIn; `reasoning` is the `effort` of the request's reasoning object, or "" where there is none or
-- the value does not decode
pub record ChatIn : Type 0 where
  pub model : String
  pub messages : List Message
  pub tools : List Tool
  pub tool_choice : Option Json
  pub temperature : Option String
  pub max_tokens : Option ℤ
  pub stream : Bool
  pub reasoning_effort : String
  pub reasoning : String

abbrev pub known_keys : List String
known_keys =
    "model" ∷ "messages" ∷ "tools" ∷ "tool_choice" ∷ "temperature" ∷ "max_tokens" ∷ "stream"
    ∷ "stream_options" ∷ "reasoning_effort" ∷ "reasoning" ∷ []

-- the loop of parseChatRequest over the known keys
unfoldable pub remove_all {ℓ} : {V : Type ℓ} → List String → Dict V → Dict V
unfolding remove
remove_all [] m = m
remove_all (k ∷ ks) m = remove_all ks (remove k m)

-- the extra fields of parseChatRequest
unfoldable pub extra_of : Dict Json → Dict Json
unfolding remove_all
extra_of all = remove_all known_keys all

pub data Choice : Type 0 where
  chosen : ReasoningLevel → Choice
  rejected : ProviderError → Choice

unfoldable pub parse_or : String → String → ReasoningLevel → Choice
unfolding parse_reasoning_level invalid_request
parse_or text complaint otherwise =
    if is_empty text then chosen otherwise else elim (parse_reasoning_level text) [
      | none ↦ rejected (invalid_request complaint)
      | some level ↦ chosen level
    ]

-- the request's level: reasoning.effort goes before reasoning_effort
unfoldable pub request_level : ChatIn → Choice
unfolding parse_or
request_level in_ =
    elim (parse_or in_.reasoning_effort "invalid reasoning_effort" reasoning_default) [
      | rejected pe ↦ rejected pe
      | chosen level ↦ parse_or in_.reasoning "invalid reasoning.effort" level
    ]

-- What chatCompletions goes on with: an error, or a call of an instance.
pub data Routed : Type 0 where
  reject : ProviderError → Routed
  route : Resolved → Instance → CompletionRequest → Routed

-- the canonical request
abbrev pub canonical : String → ChatIn → Dict Json → Resolved → CompletionRequest
canonical req_id in_ extra r = record {
  request_id = req_id;
  model = r.upstream_model;
  messages = in_.messages;
  tools = in_.tools;
  tool_choice = in_.tool_choice;
  stream = in_.stream;
  temperature = in_.temperature;
  max_tokens = in_.max_tokens;
  reasoning = r.reasoning;
  extra = extra;
}

abbrev pub not_running : String → String
not_running id = "provider instance \"" <> (id <> "\" is not running")

-- chatCompletions behind parseChatRequest
unfoldable pub route_request : Config → Dict Instance → String → ChatIn → Dict Json → Routed
unfolding request_level resolve get_instance invalid_request new_provider_error
route_request cfg instances req_id in_ extra =
    if is_empty in_.model
    then reject (invalid_request "model is required")
    else elim (request_level in_) [
      | rejected pe ↦ reject pe
      | chosen level ↦ elim (resolve cfg in_.model level) [
        | refused pe ↦ reject pe
        | resolved r ↦ elim (get_instance r.provider instances) [
          | none ↦ reject (new_provider_error 502 "plugin_unavailable" (not_running r.provider))
          | some i ↦ route r i (canonical req_id in_ extra r)
        ]
      ]
    ]
