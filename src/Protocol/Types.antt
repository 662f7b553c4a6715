-- ===== src/Protocol/Types.antt =====
-- internal/protocol/types.go: the canonical request and event types. A pointer is an `Option`, a
-- json.RawMessage the value that it holds (`none` when it is empty), a float64 its literal.
use providerapi.Prelude.{ℕ, String, none, Bool, Option, List}
use providerapi.Prelude.Int.{ℤ, pos}
use providerapi.Json.{Json}
use providerapi.Dict.{Dict}

-- A reasoning level is a text; these are the known ones.
abbrev pub ReasoningLevel : Type 0
ReasoningLevel = String

abbrev pub reasoning_default : ReasoningLevel
reasoning_default = "default"

abbrev pub reasoning_off : ReasoningLevel
reasoning_off = "off"

abbrev pub reasoning_low : ReasoningLevel
reasoning_low = "low"

abbrev pub reasoning_medium : ReasoningLevel
reasoning_medium = "medium"

abbrev pub reasoning_high : ReasoningLevel
reasoning_high = "high"

abbrev pub reasoning_max : ReasoningLevel
reasoning_max = "max"

pub record ContentPart : Type 0 where
  pub typ : String
  pub text : String
  pub image_url : Option Json

-- `raw` is what was received; `text` or `parts` is set when that was a text or an array.
pub record Content : Type 0 where
  pub text : Option String
  pub parts : Option (List ContentPart)
  pub raw : Option Json

pub record FunctionCall : Type 0 where
  pub name : String
  pub arguments : String

pub record ToolCall : Type 0 where
  pub id : String
  pub typ : String
  pub index : Option ℤ
  pub function : FunctionCall

pub record Message : Type 0 where
  pub role : String
  pub content : Content
  pub name : String
  pub tool_call_id : String
  pub tool_calls : List ToolCall
  pub extra : Option Json

pub record FunctionTool : Type 0 where
  pub name : String
  pub description : String
  pub parameters : Option Json

pub record CustomTool : Type 0 where
  pub name : String
  pub description : String
  pub input : Option Json

pub record Tool : Type 0 where
  pub typ : String
  pub function : Option FunctionTool
  pub custom : Option CustomTool
  pub raw : Option Json

pub record CompletionRequest : Type 0 where
  pub request_id : String
  pub model : String
  pub messages : List Message
  pub tools : List Tool
  pub tool_choice : Option Json
  pub stream : Bool
  pub temperature : Option String
  pub max_tokens : Option ℤ
  pub reasoning : ReasoningLevel
  pub extra : Dict Json

pub record ModelInfo : Type 0 where
  pub id : String
  pub object : String
  pub owned_by : String
  pub context_length : ℤ

abbrev pub default_context_length : ℤ
default_context_length = pos 1000000

pub record Usage : Type 0 where
  pub input_tokens : ℤ
  pub output_tokens : ℤ
  pub total_tokens : ℤ

pub record CompletionResponse : Type 0 where
  pub id : String
  pub model : String
  pub message : Message
  pub finish_reason : String
  pub usage : Option Usage

-- An HTTP status that is not set is 0.
pub record ProviderError : Type 0 where
  pub message : String
  pub typ : String
  pub code : String
  pub param : Json
  pub http_status : ℕ
  pub provider_status : ℕ
  pub provider_error_code : String
  pub provider_request_id : String

pub data EventType : Type 0 where
  stream_start text_delta tool_call_start tool_call_delta : EventType
  tool_call_end usage_report stream_end error_event : EventType

pub record ToolCallDelta : Type 0 where
  pub index : ℤ
  pub id : String
  pub typ : String
  pub name : String
  pub arguments : String
  pub finish_reason : String

pub record StreamEvent : Type 0 where
  pub typ : EventType
  pub text : Option String
  pub tool_call : Option ToolCallDelta
  pub usage : Option Usage
  pub finish_reason : String
  pub error : Option ProviderError

-- an event with nothing but its type
abbrev pub blank_event : EventType → StreamEvent
blank_event t = record {
  typ = t;
  text = none;
  tool_call = none;
  usage = none;
  finish_reason = "";
  error = none;
}

pub record Capabilities : Type 0 where
  pub stream : Bool
  pub tools : Bool
  pub reasoning : Bool

pub record Manifest : Type 0 where
  pub protocol_version : String
  pub id : String
  pub version : String
  pub capabilities : Capabilities
