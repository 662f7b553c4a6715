-- ===== src/Compat/Chunk.antt =====
-- plugins/openai-compat/main.go: one chunk of an upstream stream, and a whole upstream response, from
-- the envelope that json.Unmarshal makes of it.
use providerapi.Prelude.{
  String, not, ◌||◌, Option, none, some, List, [], ◌∷◌, ◌++◌, map, if◌then◌else◌,
}
use providerapi.Prelude.Int.{ℤ, pos, add_int}
use providerapi.Text.{is_empty}
use providerapi.Protocol.Types.{
  StreamEvent, text_delta, tool_call_start, tool_call_delta, error_event, ToolCallDelta, Usage,
  CompletionRequest, CompletionResponse, Content, ToolCall, ProviderError,
}
use providerapi.Protocol.Errors.{new_provider_error}
use providerapi.Sdk.{Decoded, good, bad}

pub record UsageEnv : Type 0 where
  pub prompt_tokens : ℤ
  pub completion_tokens : ℤ

pub record ChunkChoice : Type 0 where
  pub finish_reason : String
  pub content : Option String
  pub tool_calls : List ToolCallDelta

-- `error` is the message of the envelope's error.
pub record ChunkEnv : Type 0 where
  pub error : Option String
  pub choices : List ChunkChoice
  pub usage : Option UsageEnv

pub record Chunk : Type 0 where
  pub events : List StreamEvent
  pub finish : String
  pub usage : Option Usage

abbrev pub usage_of : Option UsageEnv → Option Usage
usage_of none = none
usage_of (some u) = some (record {
  input_tokens = u.prompt_tokens;
  output_tokens = u.completion_tokens;
  total_tokens = pos 0;
})

abbrev pub error_stream : ProviderError → StreamEvent
error_stream e = record {
  typ = error_event;
  text = none;
  tool_call = none;
  usage = none;
  finish_reason = "";
  error = some e;
}

abbrev text_event : String → String → StreamEvent
text_event s finish = record {
  typ = text_delta;
  text = some s;
  tool_call = none;
  usage = none;
  finish_reason = finish;
  error = none;
}

-- the text delta, if there is a text and it is not empty
unfoldable pub content_events : Option String → String → List StreamEvent
content_events none finish = []
content_events (some s) finish = if is_empty s then [] else text_event s finish ∷ []

unfoldable pub tool_event : String → ToolCallDelta → StreamEvent
tool_event finish tc = record {
  typ = if not (is_empty tc.id) || not (is_empty tc.name) then tool_call_start else tool_call_delta;
  text = none;
  tool_call = some (record tc { finish_reason = "" });
  usage = none;
  finish_reason = finish;
  error = none;
}

-- the events of the first choice
unfoldable pub choice_events : ChunkChoice → List StreamEvent
unfolding content_events tool_event
choice_events ch =
    content_events ch.content ch.finish_reason ++ map (tool_event ch.finish_reason) ch.tool_calls

unfoldable pub chunk_of : ChunkEnv → Chunk
unfolding choice_events new_provider_error
chunk_of env = elim env.error [
  | some text ↦ record {
    events = error_stream (new_provider_error 502 "provider_error" text) ∷ [];
    finish = "";
    usage = none;
  }
  | none ↦ elim env.choices [
    | [] ↦ record { events = []; finish = ""; usage = usage_of env.usage }
    | ch ∷ _ ↦ record {
      events = choice_events ch;
      finish = ch.finish_reason;
      usage = usage_of env.usage;
    }
  ]
]

-- parseStreamChunk
unfoldable pub parse_stream_chunk : Decoded ChunkEnv → Decoded Chunk
unfolding chunk_of
parse_stream_chunk (bad e) = bad e
parse_stream_chunk (good env) = good (chunk_of env)

pub record CompletionChoice : Type 0 where
  pub finish_reason : String
  pub role : String
  pub content : Content
  pub tool_calls : List ToolCall

pub record CompletionEnv : Type 0 where
  pub id : String
  pub model : String
  pub choices : List CompletionChoice
  pub usage : Option UsageEnv

pub data Completion : Type 0 where
  completed : CompletionResponse → Completion
  failed : ProviderError → Completion

abbrev total_usage : Option UsageEnv → Option Usage
total_usage none = none
total_usage (some u) = some (record {
  input_tokens = u.prompt_tokens;
  output_tokens = u.completion_tokens;
  total_tokens = add_int u.prompt_tokens u.completion_tokens;
})

-- parseCompletion
unfoldable pub parse_completion : CompletionRequest → Decoded CompletionEnv → Completion
unfolding new_provider_error add_int
parse_completion req (bad e) = failed (new_provider_error 502 "malformed_response" e)
parse_completion req (good env) = elim env.choices [
  | [] ↦ failed (new_provider_error 502 "malformed_response" "no choices")
  | ch ∷ _ ↦ completed (record {
    id = env.id;
    model = req.model;
    message = record {
      role = ch.role;
      content = ch.content;
      name = "";
      tool_call_id = "";
      tool_calls = ch.tool_calls;
      extra = none;
    };
    finish_reason = ch.finish_reason;
    usage = total_usage env.usage;
  })
]
