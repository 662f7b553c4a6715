-- ===== src/Compat/Body.antt =====
-- plugins/openai-compat/main.go: the body of an upstream request, with the patch of the reasoning level.
pub mod Guarded
pub mod Merge
use providerapi.Prelude.{
  ℕ, String, Bool, true, false, not, ◌&&◌, ◌||◌, Option, none, some, List, [], ◌∷◌, map, ◌==◌,
  if◌then◌else◌,
}
use providerapi.Prelude.Int.{ℤ}
use providerapi.Text.{is_empty, ◌<>◌}
use providerapi.Dict.{Dict, get}
use providerapi.Json.{
  Json, null, bool, num, str, arr, obj, Items, nil, cons, Fields, end, field, get_field, put_field,
  items_of,
}
use providerapi.Protocol.Types.{
  CompletionRequest, Message, ToolCall, FunctionCall, Tool, ProviderError, ReasoningLevel,
  reasoning_default,
}
use providerapi.Protocol.Errors.{new_provider_error, invalid_request}
use providerapi.Protocol.Content.{marshal_content, opt_field, text_field}
use providerapi.Protocol.Tool.{upstream_object}

pub record InstanceConfig : Type 0 where
  pub base_url : String
  pub extra_headers : Dict String
  pub reasoning_map : Dict Json

abbrev pub is_listed : String → List String → Bool
is_listed k [] = false
is_listed k (j ∷ ks) = if j == k then true else is_listed k ks

-- a map over what is there: the two are merged where that is a map too
abbrev pub over_existing : (Fields → Fields) → Fields → Option Json → Json
over_existing merge nested (some (obj existing)) = obj (merge existing)
over_existing merge nested _ = obj nested

-- deepMerge: what `dst` becomes
unfoldable pub deep_merge : List String → Fields → Fields → Fields
unfolding get_field put_field
deep_merge guarded dst end = dst
deep_merge guarded dst (field k (obj nested) src) =
    let v =
      over_existing (λ (existing : Fields). deep_merge [] existing nested) nested
        (get_field k dst) in
    deep_merge guarded (if is_listed k guarded then dst else put_field k v dst) src
deep_merge guarded dst (field k v src) =
    deep_merge guarded (if is_listed k guarded then dst else put_field k v dst) src

pub data Built : Type 0 where
  body : Fields → Built
  refused : ProviderError → Built

abbrev pub guarded_keys : List String
guarded_keys = "model" ∷ "messages" ∷ "tools" ∷ "stream" ∷ []

-- `decimal` is the decimal text of an integer.
module _ (decimal : ℤ → String) where
  abbrev number_field : Option ℤ → Option Json
  number_field none = none
  number_field (some n) = some (num (decimal n))

  unfoldable pub encode_tool_call : ToolCall → Json
  encode_tool_call tc = obj (
      text_field "id" tc.id (
        text_field "type" tc.typ (
          opt_field "index" (number_field tc.index) (
            field "function"
              (obj (
                text_field "name" tc.function.name
                  (text_field "arguments" tc.function.arguments end)))
              end))))

  abbrev tool_calls_field : List ToolCall → Option Json
  tool_calls_field [] = none
  tool_calls_field (tc ∷ tcs) = some (arr (items_of (map encode_tool_call (tc ∷ tcs))))

  unfoldable pub message_item : Message → Json
  unfolding encode_tool_call marshal_content
  message_item m = obj (
      field "role" (str m.role) (
        field "content" (marshal_content m.content) (
          text_field "name" m.name (
            text_field "tool_call_id" m.tool_call_id
              (opt_field "tool_calls" (tool_calls_field m.tool_calls) end)))))

  abbrev tools_field : List Tool → Option Json
  tools_field [] = none
  tools_field (t ∷ ts) = some (arr (items_of (map (λ u. obj (upstream_object u)) (t ∷ ts))))

  abbrev number_text : Option String → Option Json
  number_text none = none
  number_text (some n) = some (num n)

  abbrev stream_options : Bool → Option Json
  stream_options true = some (obj (field "include_usage" (bool true) end))
  stream_options false = none

  -- the body before the patch
  unfoldable pub base_body : CompletionRequest → Bool → Fields
  unfolding message_item upstream_object
  base_body req stream = field "model" (str req.model) (
      field "messages" (arr (items_of (map message_item req.messages))) (
        field "stream" (bool stream) (
          opt_field "stream_options" (stream_options stream) (
            opt_field "temperature" (number_text req.temperature) (
              opt_field "max_tokens" (number_field req.max_tokens) (
                opt_field "tools" (tools_field req.tools)
                  (opt_field "tool_choice" req.tool_choice end)))))))

  abbrev pub level_or_default : ReasoningLevel → ReasoningLevel
  level_or_default l = if is_empty l then reasoning_default else l

  -- what an entry of the reasoning map does to the body
  unfoldable pub apply_patch : Option Json → Fields → Built
  unfolding deep_merge invalid_request
  apply_patch none b = body b
  apply_patch (some null) b = body b
  apply_patch (some (obj src)) b = body (deep_merge guarded_keys b src)
  apply_patch (some _) b = refused (invalid_request "invalid reasoning_map entry")

  -- buildBody
  unfoldable pub build_body : InstanceConfig → CompletionRequest → Bool → Built
  unfolding base_body apply_patch get new_provider_error
  build_body cfg req stream =
      let level = level_or_default req.reasoning in
      let unmapped =
        new_provider_error 400 "reasoning_unsupported"
          ("reasoning level \"" <> (level <> "\" is not mapped for this provider instance")) in
      elim (get level cfg.reasoning_map) [
        | none ↦
            if level == reasoning_default then body (base_body req stream) else refused unmapped
        | some patch ↦ apply_patch (some patch) (base_body req stream)
      ]
