-- ===== src/Mock.antt =====
-- plugins/mock/main.go: the plugin that answers without an upstream. What only waits is left out; the
-- context is a test before each token of a stream, by its place.
pub mod Events
pub mod Forwarded
use Prim.Native.Char.{code}
use Prim.Native.String
use providerapi.Prelude.{
  ℕ, zero, suc, ◌+◌, String, Bool, true, false, Option, none, some, List, [], ◌∷◌, ◌++◌, map, ◌==◌,
  length, if◌then◌else◌,
}
use providerapi.Prelude.Int.{ℤ, pos}
use providerapi.Text.{codes, is_empty, is_space, contains, to_lower, ◌<>◌}
use providerapi.Text.Words.{fields}
use providerapi.Json.{Json}
use providerapi.Protocol.Types.{
  blank_event, CompletionRequest, CompletionResponse, Message, ModelInfo, Tool, ToolCall,
  ToolCallDelta, Usage, StreamEvent, EventType, stream_start, text_delta, tool_call_start,
  tool_call_delta, tool_call_end, usage_report, stream_end, error_event, ProviderError, Manifest,
}
use providerapi.Protocol.Errors.{map_provider_status, timeout}
use providerapi.Protocol.Content.{content_string, text_content}
use providerapi.Plugin.Instance.{protocol_version}
use providerapi.Mock.Events.{
  counted, end_event, error_of, final_answer, hello, last_tool_result, last_user, or_whole,
  rune_count, send_tokens, spaced, stream_text, stream_tool, text_event, text_tail, tokenize,
  tool_event, usage_event,
}

-- Handshake
abbrev pub manifest : Manifest
manifest = record {
  protocol_version = protocol_version;
  id = "mock";
  version = "0.1.0";
  capabilities = record { stream = true; tools = true; reasoning = true };
}

abbrev model_of : String → ModelInfo
model_of id = record { id = id; object = ""; owned_by = ""; context_length = pos 0 }

-- Models
abbrev pub models : List ModelInfo
models = map model_of (
    "mock-echo" ∷ "mock-error" ∷ "mock-timeout" ∷ "mock-tool" ∷ "mock-unauthorized"
    ∷ "mock-rate-limited" ∷ "mock-unavailable" ∷ "mock-bad-request" ∷ [])

-- What a handler of the mock gives: a response or an error.
pub data Answer : Type 0 where
  response : CompletionResponse → Answer
  fault : ProviderError → Answer

abbrev assistant : String → List ToolCall → Message
assistant text calls = record {
  role = "assistant";
  content = text_content text;
  name = "";
  tool_call_id = "";
  tool_calls = calls;
  extra = none;
}

abbrev answer : CompletionRequest → String → List ToolCall → String → Usage → Answer
answer req text calls reason u = response (record {
  id = req.request_id;
  model = req.model;
  message = assistant text calls;
  finish_reason = reason;
  usage = some u;
})

-- `decimal` is the decimal text of a number, `print` the text of a JSON value.
module _ (decimal : ℕ → String) (print : Json → String) where
  -- simulate, whose two ways out of the wait are one error
  unfoldable pub simulate : String → Option ProviderError
  unfolding map_provider_status timeout
  simulate model =
      if model == "mock-error"
      then some (map_provider_status decimal 500 "simulated provider 500" "internal" "")
      else if model == "mock-unauthorized"
      then some (map_provider_status decimal 401 "unauthorized" "unauthorized" "")
      else if model == "mock-rate-limited"
      then some (map_provider_status decimal 429 "rate limited" "rate_limit" "")
      else if model == "mock-unavailable"
      then some (map_provider_status decimal 503 "unavailable" "unavailable" "")
      else if model == "mock-bad-request"
      then some (map_provider_status decimal 400 "bad request" "bad_request" "")
      else if model == "mock-timeout"
      then some (timeout "mock timeout")
      else none

  -- lastUserContains
  unfoldable pub last_user_contains : List Message → String → Bool
  unfolding last_user content_string to_lower
  last_user_contains ms needle = elim (last_user ms) [
    | none ↦ false
    | some m ↦ contains (to_lower (content_string print m.content)) (codes needle)
  ]

  abbrev first_name : List Tool → String
  first_name [] = "read_file"
  first_name (t ∷ ts) = elim t.function [
    | none ↦ "read_file"
    | some f ↦ if is_empty f.name then "read_file" else f.name
  ]

  abbrev read_call : String → ToolCall
  read_call name = record {
    id = "call_mock_1";
    typ = "function";
    index = none;
    function = record { name = name; arguments = "{\"path\":\"README.md\"}" };
  }

  abbrev no_tools : List Tool → Bool
  no_tools [] = true
  no_tools (t ∷ ts) = false

  -- maybeToolCall
  unfoldable pub maybe_tool_call : CompletionRequest → Option ToolCall
  unfolding last_tool_result last_user_contains
  maybe_tool_call req =
      if last_tool_result req.messages
      then none
      else if no_tools req.tools
      then none
      else if req.model == "mock-tool"
      then some (read_call (first_name req.tools))
      else if last_user_contains req.messages "use tool"
      then some (read_call (first_name req.tools))
      else none

  -- the answer of Complete, from an error, a tool call and whether the last message is a tool's
  unfoldable pub answer_for :
      CompletionRequest → Option ProviderError → Option ToolCall → Bool → Answer
  unfolding text_content
  answer_for req (some e) tool after_tool = fault e
  answer_for req none (some tool) after_tool =
      answer req "" (tool ∷ []) "tool_calls" (counted 12 6 18)
  answer_for req none none true = answer req final_answer [] "stop" (counted 20 8 28)
  answer_for req none none false =
      answer req hello [] "stop" (counted 8 (rune_count hello) (8 + rune_count hello))

  -- Complete
  unfoldable pub complete : CompletionRequest → Answer
  unfolding simulate maybe_tool_call answer_for
  complete req =
      answer_for req (simulate req.model) (maybe_tool_call req) (last_tool_result req.messages)

  -- the events of Stream, from the same
  unfoldable pub events_for :
      (ℕ → Bool) → Option ProviderError → Option ToolCall → Bool → List StreamEvent
  unfolding stream_text
  events_for gone (some e) tool after_tool = error_of e ∷ []
  events_for gone none (some tool) after_tool = stream_tool tool
  events_for gone none none true = stream_text gone final_answer
  events_for gone none none false = stream_text gone hello

  -- Stream, with the events that its channel gives
  unfoldable pub stream : (ℕ → Bool) → CompletionRequest → List StreamEvent
  unfolding simulate maybe_tool_call events_for
  stream gone req =
      events_for gone (simulate req.model) (maybe_tool_call req) (last_tool_result req.messages)
