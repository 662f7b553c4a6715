-- ===== src/Api/Chunks.antt =====
-- internal/api/openai.go: the JSON objects that a client receives.
use providerapi.Prelude.{ℕ, String, Option, none, some, List, [], ◌∷◌, eqb, map, if◌then◌else◌}
use providerapi.Prelude.Int.{ℤ, add_int}
use providerapi.Text.{is_empty}
use providerapi.Json.{Json, null, num, str, arr, obj, nil, cons, end, field, items_of}
use providerapi.Protocol.Types.{ProviderError, Usage, ToolCallDelta, CompletionResponse, ToolCall}
use providerapi.Protocol.Errors.{new_provider_error}
use providerapi.Protocol.Content.{marshal_content, text_field, opt_field}
use providerapi.Compat.Body.{encode_tool_call}

-- statusOr
unfoldable pub status_or : Option ProviderError → ℕ → ℕ
status_or none fallback = fallback
status_or (some pe) fallback = if eqb pe.http_status 0 then fallback else pe.http_status

abbrev error_fields : ProviderError → Json
error_fields pe = obj (
    field "message" (str pe.message)
      (field "type" (str pe.typ) (field "param" pe.param (field "code" (str pe.code) end))))

-- openaiError
unfoldable pub openai_error : Option ProviderError → Json
unfolding new_provider_error
openai_error none = error_fields (new_provider_error 502 "provider_error" "unknown error")
openai_error (some pe) = error_fields pe

abbrev nullable : Option String → Json
nullable none = null
nullable (some s) = str s

-- `decimal` is the decimal text of an integer.
module _ (decimal : ℤ → String) where
  -- chunk
  unfoldable pub chunk : String → String → ℤ → Json → Option String → Json
  chunk id model created delta finish = obj (
      field "id" (str id) (
        field "object" (str "chat.completion.chunk") (
          field "created" (num (decimal created)) (
            field "model" (str model) (
              field "choices"
                (arr (
                  cons
                    (obj (
                      field "index" (num "0")
                        (field "delta" delta (field "finish_reason" (nullable finish) end))))
                    nil))
                end)))))

  -- finalChunk, which is called with no usage
  unfoldable pub final_chunk : String → String → ℤ → String → Json
  unfolding chunk
  final_chunk id model created finish = chunk id model created (obj end) (some finish)

  -- openaiUsage
  unfoldable pub openai_usage : Usage → Json
  unfolding add_int
  openai_usage u = obj (
      field "prompt_tokens" (num (decimal u.input_tokens)) (
        field "completion_tokens" (num (decimal u.output_tokens))
          (field "total_tokens" (num (decimal (add_int u.input_tokens u.output_tokens))) end)))

  -- usageChunk
  unfoldable pub usage_chunk : String → String → ℤ → Json → Json
  usage_chunk id model created usage = obj (
      field "id" (str id) (
        field "object" (str "chat.completion.chunk") (
          field "created" (num (decimal created))
            (field "model" (str model) (field "choices" (arr nil) (field "usage" usage end))))))

  -- toolCallDeltaJSON
  unfoldable pub tool_call_delta_json : ToolCallDelta → Json
  tool_call_delta_json d = obj (
      field "index" (num (decimal d.index)) (
        field "function" (obj (text_field "name" d.name (text_field "arguments" d.arguments end))) (
          text_field "id" d.id
            (field "type" (str (if is_empty d.typ then "function" else d.typ)) end))))

  abbrev tool_calls_part : List ToolCall → Option Json
  tool_calls_part [] = none
  tool_calls_part (tc ∷ tcs) = some (arr (items_of (map (encode_tool_call decimal) (tc ∷ tcs))))

  abbrev usage_part : Option Usage → Option Json
  usage_part none = none
  usage_part (some u) = some (openai_usage u)

  -- toOpenAIResponse
  unfoldable pub to_openai_response : String → String → ℤ → CompletionResponse → Json
  unfolding marshal_content encode_tool_call openai_usage
  to_openai_response id client_model created resp = obj (
      field "id" (str id) (
        field "object" (str "chat.completion") (
          field "created" (num (decimal created)) (
            field "model" (str client_model) (
              field "choices"
                (arr (
                  cons
                    (obj (
                      field "index" (num "0") (
                        field "message"
                          (obj (
                            field "role" (str resp.message.role) (
                              field "content" (marshal_content resp.message.content) (
                                opt_field "tool_calls" (tool_calls_part resp.message.tool_calls)
                                  end))))
                          (field "finish_reason" (str resp.finish_reason) end))))
                    nil))
                (opt_field "usage" (usage_part resp.usage) end))))))
