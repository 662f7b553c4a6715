-- ===== src/Trace/Summary.antt =====
-- internal/trace/summary.go: what is kept of a payload where the payload itself is not.
use providerapi.Prelude.{ℕ, String, false, Option, none, some, List, [], ◌∷◌, length, if◌then◌else◌}
use providerapi.Text.{is_empty}
use providerapi.Json.{
  Json, null, bool, num, str, arr, obj, Items, nil, cons, Fields, end, field, get_field,
}
use providerapi.Redact.{RawJson, json, header_name, value, redacted}
use providerapi.Protocol.Types.{CompletionRequest, Tool}

abbrev append_fields : Fields → Fields → Fields
append_fields end n = n
append_fields (field k v m) n = field k v (append_fields m n)

abbrev model_field : Option Json → Fields
model_field (some (str s)) = field "model" (str s) end
model_field (some null) = field "model" (str "") end
model_field _ = end

abbrev stream_field : Option Json → Fields
stream_field (some (bool b)) = field "stream" (bool b) end
stream_field (some null) = field "stream" (bool false) end
stream_field _ = end

-- `size` is the length of a value's JSON text, as a JSON number.
module _ (size : Json → String) where
  -- summarizeClientRaw
  unfoldable pub summarize_client_raw : RawJson → Json
  unfolding get_field
  summarize_client_raw (json (obj m)) = obj (
      field "size" (num (size (obj m)))
        (append_fields (model_field (get_field "model" m)) (stream_field (get_field "stream" m))))
  summarize_client_raw (json v) = obj (field "size" (num (size v)) end)
  summarize_client_raw _ = obj (field "size" (num "0") end)

abbrev custom_name : Tool → String
custom_name t = elim t.custom [ some c ↦ if is_empty c.name then t.typ else c.name | none ↦ t.typ ]

abbrev tool_name : Tool → String
tool_name t = elim t.function [
  | some f ↦ if is_empty f.name then custom_name t else f.name
  | none ↦ custom_name t
]

-- toolNames
unfoldable pub tool_names : List Tool → List String
tool_names [] = []
tool_names (t ∷ ts) =
    let rest = tool_names ts in if is_empty (tool_name t) then rest else tool_name t ∷ rest

abbrev texts : List String → Items
texts [] = nil
texts (s ∷ ss) = cons (str s) (texts ss)

-- summarizeCompletionRequest, where `decimal` is the decimal text of a number. The source goes through the
-- request's JSON first, and is taken here for one whose encoding and decoding succeed.
unfoldable pub summarize_completion_request : (ℕ → String) → CompletionRequest → Json
unfolding tool_names
summarize_completion_request decimal req = obj (
    field "model" (str req.model) (
      field "reasoning" (str req.reasoning) (elim (tool_names req.tools) [
        | [] ↦ end
        | n ∷ ns ↦
            field "tools" (arr (texts (n ∷ ns)))
              (field "tool_count" (num (decimal (length (n ∷ ns)))) end)
      ])))

-- the headers that are texts, redacted
unfoldable pub summarize_headers : Fields → Fields
unfolding header_name value
summarize_headers end = end
summarize_headers (field k (str s) m) =
    field k (str (if header_name k then redacted else value s)) (summarize_headers m)
summarize_headers (field k v m) = summarize_headers m

abbrev method_part : Option Json → Fields → Fields
method_part (some (str s)) rest = if is_empty s then rest else field "method" (str s) rest
method_part _ rest = rest

abbrev status_part : Option Json → Fields → Fields
status_part (some (num n)) rest = field "status" (num n) rest
status_part _ rest = rest

abbrev url_part : (String → String) → Option Json → Fields → Fields
url_part strip_query (some (str s)) rest =
    if is_empty s then rest else field "url" (str (strip_query s)) rest
url_part strip_query _ rest = rest

abbrev headers_part : Option Json → Fields
headers_part (some (obj m)) = field "headers" (obj (summarize_headers m)) end
headers_part _ = end

abbrev or_null : Option Json → Json
or_null none = null
or_null (some v) = v

-- summarizeProviderAudit, where `strip_query` is stripURLQuery
unfoldable pub summarize_provider_audit : (String → String) → Fields → Fields
unfolding get_field summarize_headers
summarize_provider_audit strip_query m = field "type" (or_null (get_field "type" m)) (
    method_part (get_field "method" m) (
      status_part (get_field "status" m)
        (url_part strip_query (get_field "url" m) (headers_part (get_field "headers" m)))))
