-- ===== src/Api/Stream/Seen/Chunks.antt =====
-- internal/api/openai.go: what a client reads of each kind of chunk that handleStream writes.
use providerapi.Prelude.{String, ◌≡◌, refl, sym, ap, ◌∙◌, none, some, List, [], ◌∷◌, ◌++◌}
use mathlib.Core.List.{append-nil, append_assoc}
use providerapi.Prelude.Int.{ℤ}
use providerapi.Json.{Json, str, arr, obj, nil, cons, Fields, end, field, get_field}
use providerapi.Protocol.Types.{ToolCallDelta, ProviderError, Usage}
use providerapi.Api.Chunks.{
  chunk, final_chunk, usage_chunk, openai_usage, openai_error, tool_call_delta_json,
}
use providerapi.Api.Stream.Written.{Frame, chunk_frame, done_frame, Request}
use providerapi.Api.Stream.Seen.{
  Seen, call, finish, tokens, fault, fields_of, text_of, said, read_call, read_calls, items_in,
  read_chunk, read_frames, shown_call,
}

pub read_frames-append :
    (xs ys : List Frame) → read_frames (xs ++ ys) ≡ read_frames xs ++ read_frames ys
read_frames-append [] ys = refl
read_frames-append (chunk_frame v ∷ xs) ys =
    ap (λ l. read_chunk v ++ l) (read_frames-append xs ys)
    ∙ sym (append_assoc (read_chunk v) (read_frames xs) (read_frames ys))
read_frames-append (done_frame ∷ xs) ys = read_frames-append xs ys

pub read_frames-snoc :
    (fs : List Frame) (v : Json) {w : List Seen}
    → read_chunk v ≡ w
    → read_frames (fs ++ chunk_frame v ∷ []) ≡ read_frames fs ++ w
read_frames-snoc fs v e =
    read_frames-append fs (chunk_frame v ∷ [])
    ∙ ap (λ l. read_frames fs ++ l) (append-nil (read_chunk v) ∙ e)

module _ (decimal : ℤ → String) where
  -- A field that is left out where it is empty reads as the empty text.
  call_parts :
      (index : ℤ) (id name arguments typ why : String)
      → read_call (
          fields_of (
            some (
              tool_call_delta_json decimal (record {
                index = index;
                id = id;
                typ = typ;
                name = name;
                arguments = arguments;
                finish_reason = why;
              }))))
        ≡ call (decimal index) id name arguments
  unfolding get_field tool_call_delta_json
  call_parts index String.[] String.[] String.[] typ why = refl
  call_parts index String.[] String.[] (String.◌∷◌ c s) typ why = refl
  call_parts index String.[] (String.◌∷◌ b n) String.[] typ why = refl
  call_parts index String.[] (String.◌∷◌ b n) (String.◌∷◌ c s) typ why = refl
  call_parts index (String.◌∷◌ a i) String.[] String.[] typ why = refl
  call_parts index (String.◌∷◌ a i) String.[] (String.◌∷◌ c s) typ why = refl
  call_parts index (String.◌∷◌ a i) (String.◌∷◌ b n) String.[] typ why = refl
  call_parts index (String.◌∷◌ a i) (String.◌∷◌ b n) (String.◌∷◌ c s) typ why = refl

  read_call-tool_call_delta_json :
      (d : ToolCallDelta)
      → read_call (fields_of (some (tool_call_delta_json decimal d)))
        ≡ call (decimal d.index) d.id d.name d.arguments
  read_call-tool_call_delta_json d =
      call_parts d.index d.id d.name d.arguments d.typ d.finish_reason

module _ (decimal : ℤ → String) (r : Request) where
  -- a chunk that holds no finish reason
  read_chunk-delta :
      (delta : Fields)
      → read_chunk (chunk decimal r.id r.model r.created (obj delta) none)
        ≡ said (text_of (get_field "content" delta))
          ++ read_calls (items_in (get_field "tool_calls" delta))
  unfolding read_chunk chunk get_field
  read_chunk-delta delta = simp (append-nil)

  pub read_chunk-text :
      (s : String)
      → read_chunk (chunk decimal r.id r.model r.created (obj (field "content" (str s) end)) none)
        ≡ said s
  unfolding get_field
  read_chunk-text s = read_chunk-delta (field "content" (str s) end) ∙ append-nil (said s)

  pub read_chunk-role :
      read_chunk (
        chunk decimal r.id r.model r.created
          (obj (field "role" (str "assistant") (field "content" (str "") end)))
          none)
      ≡ []
  unfolding get_field
  read_chunk-role = read_chunk-delta (field "role" (str "assistant") (field "content" (str "") end))

  pub read_chunk-call :
      (d : ToolCallDelta)
      → read_chunk (
          chunk decimal r.id r.model r.created
            (obj (field "tool_calls" (arr (cons (tool_call_delta_json decimal d) nil)) end))
            none)
        ≡ shown_call decimal (some d)
  unfolding get_field
  read_chunk-call d =
      read_chunk-delta (field "tool_calls" (arr (cons (tool_call_delta_json decimal d) nil)) end)
      ∙ ap (λ c. c ∷ []) (read_call-tool_call_delta_json decimal d)

  pub read_chunk-final :
      (reason : String)
      → read_chunk (final_chunk decimal r.id r.model r.created reason) ≡ finish reason ∷ []
  unfolding read_chunk final_chunk get_field
  read_chunk-final reason = refl

  pub read_chunk-usage :
      (u : Usage)
      → read_chunk (usage_chunk decimal r.id r.model r.created (openai_usage decimal u))
        ≡ tokens (decimal u.input_tokens) (decimal u.output_tokens) ∷ []
  unfolding read_chunk usage_chunk openai_usage get_field
  read_chunk-usage u = refl

  pub read_chunk-error :
      (e : ProviderError)
      → read_chunk (obj (field "error" (openai_error (some e)) end)) ≡ fault e.message e.code ∷ []
  unfolding read_chunk openai_error get_field
  read_chunk-error e = refl
