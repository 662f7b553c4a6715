-- ===== src/Api/Stream/Seen.antt =====
-- internal/api/openai.go: what a client reads out of the chunks that handleStream writes, by a reader of its
-- own of the protocol's JSON.
pub mod Chunks
use providerapi.Prelude.{
  String, Bool, true, false, Option, none, some, List, [], ◌∷◌, ◌++◌, if◌then◌else◌,
}
use providerapi.Prelude.Int.{ℤ}
use providerapi.Text.{is_empty}
use providerapi.Json.{Json, num, str, arr, obj, Items, nil, cons, Fields, end, get_field}
use providerapi.Protocol.Types.{
  StreamEvent, EventType, text_delta, tool_call_start, tool_call_delta, error_event, ToolCallDelta,
  ProviderError, Usage,
}
use providerapi.Api.Stream.Written.{Frame, chunk_frame, done_frame, Request}
use providerapi.Api.Stream.{or_stop}
use providerapi.Api.Stream.Outcome.{any_error, last_finish, last_usage}

-- What a client learns: a piece of text, a piece of a tool call (its index, id, name and arguments), the
-- finish reason, the counted tokens, and the message and code of an error.
pub data Seen : Type 0 where
  text : String → Seen
  call : String → String → String → String → Seen
  finish : String → Seen
  tokens : String → String → Seen
  fault : String → String → Seen

abbrev pub fields_of : Option Json → Fields
fields_of (some (obj m)) = m
fields_of _ = end

abbrev pub text_of : Option Json → String
text_of (some (str s)) = s
text_of (some (num s)) = s
text_of _ = ""

-- A piece of text that is empty says nothing.
abbrev pub said : String → List Seen
said s = if is_empty s then [] else text s ∷ []

abbrev pub read_call : Fields → Seen
read_call m =
    let f = fields_of (get_field "function" m) in
    call (text_of (get_field "index" m)) (text_of (get_field "id" m)) (text_of (get_field "name" f))
      (text_of (get_field "arguments" f))

abbrev pub read_calls : Items → List Seen
read_calls nil = []
read_calls (cons v vs) = read_call (fields_of (some v)) ∷ read_calls vs

abbrev pub items_in : Option Json → Items
items_in (some (arr vs)) = vs
items_in _ = nil

abbrev pub read_finish : Option Json → List Seen
read_finish (some (str s)) = finish s ∷ []
read_finish _ = []

-- the first choice
abbrev pub read_choice : Items → List Seen
read_choice nil = []
read_choice (cons v _) =
    let m = fields_of (some v) in
    let delta = fields_of (get_field "delta" m) in
    said (text_of (get_field "content" delta))
    ++ read_calls (items_in (get_field "tool_calls" delta))
    ++ read_finish (get_field "finish_reason" m)

abbrev pub read_usage : Option Json → List Seen
read_usage (some (obj m)) =
    tokens (text_of (get_field "prompt_tokens" m)) (text_of (get_field "completion_tokens" m)) ∷ []
read_usage _ = []

abbrev pub read_error : Option Json → List Seen
read_error (some (obj m)) =
    fault (text_of (get_field "message" m)) (text_of (get_field "code" m)) ∷ []
read_error _ = []

unfoldable pub read_chunk : Json → List Seen
unfolding get_field
read_chunk v =
    let m = fields_of (some v) in
    read_error (get_field "error" m)
    ++ read_choice (items_in (get_field "choices" m))
    ++ read_usage (get_field "usage" m)

abbrev pub read_frames : List Frame → List Seen
read_frames [] = []
read_frames (chunk_frame v ∷ fs) = read_chunk v ++ read_frames fs
read_frames (done_frame ∷ fs) = read_frames fs

module _ (decimal : ℤ → String) where
  -- What an event says to a client, against the event alone.
  abbrev pub shown_call : Option ToolCallDelta → List Seen
  shown_call none = []
  shown_call (some d) = call (decimal d.index) d.id d.name d.arguments ∷ []

  abbrev pub shown_fault : Option ProviderError → List Seen
  shown_fault none = []
  shown_fault (some e) = fault e.message e.code ∷ []

  abbrev pub shown_text : Option String → List Seen
  shown_text none = []
  shown_text (some s) = said s

  abbrev pub shown : EventType → StreamEvent → List Seen
  shown text_delta ev = shown_text ev.text
  shown tool_call_start ev = shown_call ev.tool_call
  shown tool_call_delta ev = shown_call ev.tool_call
  shown error_event ev = shown_fault ev.error
  shown _ ev = []

  abbrev pub shown_all : List StreamEvent → List Seen
  shown_all [] = []
  shown_all (ev ∷ evs) = shown ev.typ ev ++ shown_all evs

module _ (decimal : ℤ → String) (r : Request) where
  abbrev pub shown_usage : Option Usage → List Seen
  shown_usage none = []
  shown_usage (some u) = tokens (decimal u.input_tokens) (decimal u.output_tokens) ∷ []

  -- What the end of the stream says: the finish reason and the usage, where no event was an error.
  abbrev pub shown_close : Bool → String → Option Usage → List Seen
  shown_close true reason u = []
  shown_close false reason u = finish (or_stop decimal r reason) ∷ shown_usage u

  abbrev pub shown_end : Bool → List StreamEvent → List Seen
  shown_end true evs = []
  shown_end false evs = shown_close (any_error evs) (last_finish "" evs) (last_usage none evs)
