-- ===== src/Api/Request.antt =====
-- internal/api/openai.go: what a request and its reply are, and the handlers that only answer.
use providerapi.Prelude.{ℕ, String, Bool, Option, some, List, map}
use providerapi.Prelude.Int.{ℤ}
use providerapi.Dict.{Dict}
use providerapi.Json.{Json, str, num, arr, obj, end, field, items_of}
use providerapi.Redact.{RawJson}
use providerapi.Config.{Config}
use providerapi.Protocol.Types.{
  ProviderError, CompletionRequest, CompletionResponse, StreamEvent, ModelInfo,
}
use providerapi.Model.{list_aliases}
use providerapi.Plugin.Instance.{Instance}
use providerapi.Plugin.Calls.{Called}
use providerapi.Trace.Store.{Store}
use providerapi.Trace.Payload.{Files}
use providerapi.Trace.Session.{Session}
use providerapi.Api.Chunks.{status_or, openai_error}
use providerapi.Api.Stream.Written.{Frame, Metric}
use providerapi.Api.Chat.{ChatIn}

-- What encoding/json makes of a body: a chat request and the whole object, or an error.
pub data Decoded : Type 0 where
  decoded : ChatIn → Dict Json → Decoded
  undecoded : String → Decoded

-- What parseChatRequest returns.
pub data Parsed : Type 0 where
  parsed : ChatIn → Dict Json → Parsed
  unparsable : String → Parsed

-- What lies outside: encoders and decoders, and the plugin behind the connection, which sends audits of
-- its exchange before it answers a call. A stream's answer is what its channel gives.
pub record Outside : Type 0 where
  pub size : Json → String
  pub encode : CompletionRequest → Json
  pub decimal : ℤ → String
  pub digits : ℕ → String
  pub strip_query : String → String
  pub decode : RawJson → Decoded
  pub audits : Instance → CompletionRequest → List RawJson
  pub complete : Instance → CompletionRequest → Called CompletionResponse
  pub stream : Instance → CompletionRequest → Called (List StreamEvent)

-- The server: the configuration, the instances that run, and where traces go.
pub record Server : Type 0 where
  pub cfg : Config
  pub instances : Dict Instance
  pub level : String
  pub store : Store
  pub files : Files

-- One request: its ids, the times that are read, the body where it can be read, whether the client has
-- gone by the end, and whether the response can be flushed.
pub record Incoming : Type 0 where
  pub id : String
  pub client_id : String
  pub started : ℤ
  pub created : ℤ
  pub elapsed : ℤ
  pub now : ℤ
  pub body : Option RawJson
  pub gone : Bool
  pub can_flush : Bool

-- `hung_up` is a connection that the server closes with no reply, behind a panic of the handler.
pub data Reply : Type 0 where
  answer : ℕ → Json → Reply
  streamed : List Frame → Reply
  hung_up : Reply

-- A request that was served; `handlers` are the trace handlers of the instance that was called.
pub record Served : Type 0 where
  pub reply : Reply
  pub session : Option Session
  pub metrics : List Metric
  pub handlers : Dict ℕ

-- health
unfoldable pub health : Reply
health = answer 200 (obj (field "status" (str "ok") end))

abbrev pub model_json : (ℤ → String) → ModelInfo → Json
model_json decimal m = obj (
    field "id" (str m.id) (
      field "object" (str m.object) (
        field "owned_by" (str m.owned_by)
          (field "context_length" (num (decimal m.context_length)) end))))

-- models
unfoldable pub models : (ℤ → String) → Config → Reply
unfolding list_aliases
models decimal cfg = answer 200 (
    obj (
      field "object" (str "list")
        (field "data" (arr (items_of (map (model_json decimal) (list_aliases cfg)))) end)))

-- writeError, before any header is sent
unfoldable pub write_error : ProviderError → Reply
unfolding openai_error status_or
write_error pe = answer (status_or (some pe) 502) (obj (field "error" (openai_error (some pe)) end))
