-- ===== src/Mock/Events.antt =====
-- plugins/mock/main.go: the tokens of a text and the events that Stream sends.
use providerapi.Prelude.{
  ℕ, suc, String, Bool, true, false, Option, none, some, List, [], ◌∷◌, ◌++◌, ◌==◌, length,
  if◌then◌else◌,
}
use providerapi.Prelude.Int.{pos}
use providerapi.Text.{codes, ◌<>◌}
use providerapi.Text.Words.{fields}
use providerapi.Protocol.Types.{
  blank_event, Message, ToolCall, ToolCallDelta, Usage, StreamEvent, EventType, stream_start,
  text_delta, tool_call_start, tool_call_delta, tool_call_end, usage_report, stream_end,
  error_event, ProviderError,
}

-- the loop of tokenize: a space behind every word but the last
abbrev pub spaced : List String → List String
spaced [] = []
spaced (w ∷ []) = w ∷ []
spaced (w ∷ v ∷ ws) = (w <> " ") ∷ spaced (v ∷ ws)

abbrev pub or_whole : String → List String → List String
or_whole s [] = s ∷ []
or_whole s (w ∷ ws) = w ∷ ws

-- tokenize
unfoldable pub tokenize : String → List String
unfolding fields
tokenize s = or_whole s (spaced (fields s))

-- lastToolResult
unfoldable pub last_tool_result : List Message → Bool
last_tool_result [] = false
last_tool_result (m ∷ []) = m.role == "tool"
last_tool_result (m ∷ n ∷ ms) = last_tool_result (n ∷ ms)

-- the last message of the user
unfoldable pub last_user : List Message → Option Message
last_user [] = none
last_user (m ∷ ms) = elim (last_user ms) [
  | some x ↦ some x
  | none ↦ if m.role == "user" then some m else none
]

abbrev pub hello : String
hello = "Hello from mock plugin."

abbrev pub final_answer : String
final_answer = "Tool result received. Final answer."

-- utf8.RuneCountInString
abbrev pub rune_count : String → ℕ
rune_count s = length (codes s)

abbrev pub counted : ℕ → ℕ → ℕ → Usage
counted i o t = record { input_tokens = pos i; output_tokens = pos o; total_tokens = pos t }

abbrev pub text_event : String → StreamEvent
text_event t = record (blank_event text_delta) { text = some t }

abbrev pub tool_event : EventType → ToolCallDelta → StreamEvent
tool_event typ d = record (blank_event typ) { tool_call = some d }

abbrev pub usage_event : Usage → StreamEvent
usage_event u = record (blank_event usage_report) { usage = some u }

abbrev pub end_event : String → StreamEvent
end_event reason = record (blank_event stream_end) { finish_reason = reason }

abbrev pub error_of : ProviderError → StreamEvent
error_of e = record (blank_event error_event) { error = some e }

-- the loop of streamText from a place on, and whether it came to the end
unfoldable pub send_tokens : (ℕ → Bool) → ℕ → List String → List StreamEvent × Bool
send_tokens gone i [] = ([], true)
send_tokens gone i (t ∷ ts) =
    let rest = send_tokens gone (suc i) ts in
    if gone i then ([], false) else (text_event t ∷ rest.0, rest.1)

abbrev pub text_tail : String → Bool → List StreamEvent
text_tail text true = usage_event (counted 8 (rune_count text) 0) ∷ end_event "stop" ∷ []
text_tail text false = []

-- streamText
unfoldable pub stream_text : (ℕ → Bool) → String → List StreamEvent
unfolding tokenize send_tokens
stream_text gone text =
    let body = send_tokens gone 0 (tokenize text) in
    (blank_event stream_start ∷ body.0) ++ text_tail text body.1

abbrev blank_delta : ToolCall → ToolCallDelta
blank_delta tool = record {
  index = pos 0;
  id = tool.id;
  typ = "";
  name = "";
  arguments = "";
  finish_reason = "";
}

-- the tool events of Stream
abbrev pub stream_tool : ToolCall → List StreamEvent
stream_tool tool =
    blank_event stream_start
    ∷ tool_event tool_call_start
        (record (blank_delta tool) { typ = "function"; name = tool.function.name })
    ∷ tool_event tool_call_delta (record (blank_delta tool) { arguments = tool.function.arguments })
    ∷ tool_event tool_call_end (blank_delta tool)
    ∷ usage_event (counted 12 6 0)
    ∷ end_event "tool_calls"
    ∷ []
