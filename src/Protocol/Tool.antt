-- ===== src/Protocol/Tool.antt =====
-- internal/protocol/tool.go: a tool, between JSON and the canonical form, and the object that is sent
-- upstream. `none` is the error of a decoder.
pub mod RoundTrip
use providerapi.Prelude.{String, Option, none, some, if◌then◌else◌}
use providerapi.Text.{is_empty}
use providerapi.Json.{
  Json, null, str, obj, Fields, end, field, get_field, put_field, struct_field, string_field,
}
use providerapi.Protocol.Types.{Tool, FunctionTool, CustomTool}
use providerapi.Protocol.Content.{◌>>=◌, opt_field, text_field}

-- json.Unmarshal into a FunctionTool that is empty
unfoldable pub decode_function : Json → Option FunctionTool
unfolding struct_field
decode_function null = some (record { name = ""; description = ""; parameters = none })
decode_function (obj fs) = do
  name ← string_field (struct_field "name" fs)
  description ← string_field (struct_field "description" fs)
  some
      (record { name = name; description = description; parameters = struct_field "parameters" fs })
decode_function _ = none

-- json.Unmarshal into a CustomTool that is empty
unfoldable pub decode_custom : Json → Option CustomTool
unfolding struct_field
decode_custom null = some (record { name = ""; description = ""; input = none })
decode_custom (obj fs) = do
  name ← string_field (struct_field "name" fs)
  description ← string_field (struct_field "description" fs)
  some (record { name = name; description = description; input = struct_field "input" fs })
decode_custom _ = none

-- a field that is decoded only where it is there
abbrev pub when_there : {A : Type 0} → (Json → Option A) → Option Json → Option (Option A)
when_there decode none = some none
when_there decode (some v) = do a ← decode v; some (some a)

-- `_ = json.Unmarshal(v, &t.Type)`: an error leaves the type empty
abbrev pub type_text : Option Json → String
type_text (some (str s)) = s
type_text _ = ""

-- the value of `raw`, or else the whole input
abbrev pub raw_or : Option Json → Json → Json
raw_or (some raw) whole = raw
raw_or none whole = whole

-- (*Tool).UnmarshalJSON
unfoldable pub unmarshal_tool : Json → Option Tool
unfolding decode_function decode_custom get_field
unmarshal_tool null = some (record { typ = ""; function = none; custom = none; raw = some null })
unmarshal_tool (obj m) = do
  function ← when_there decode_function (get_field "function" m)
  custom ← when_there decode_custom (get_field "custom" m)
  some (record {
    typ = type_text (get_field "type" m);
    function = function;
    custom = custom;
    raw = some (raw_or (get_field "raw" m) (obj m));
  })
unmarshal_tool _ = none

unfoldable pub encode_function : FunctionTool → Json
encode_function f = obj (
    field "name" (str f.name)
      (text_field "description" f.description (opt_field "parameters" f.parameters end)))

unfoldable pub encode_custom : CustomTool → Json
encode_custom c = obj (
    text_field "name" c.name
      (text_field "description" c.description (opt_field "input" c.input end)))

abbrev pub encode_opt : {A : Type 0} → (A → Json) → Option A → Option Json
encode_opt encode none = none
encode_opt encode (some a) = some (encode a)

-- (Tool).MarshalJSON: the keys of a map are written in order
unfoldable pub marshal_tool : Tool → Json
unfolding encode_function encode_custom
marshal_tool t = obj (
    opt_field "custom" (encode_opt encode_custom t.custom) (
      opt_field "function" (encode_opt encode_function t.function)
        (opt_field "raw" t.raw (text_field "type" t.typ end))))

unfoldable pub function_tool_map : FunctionTool → Fields
function_tool_map f =
    field "name" (str f.name)
      (text_field "description" f.description (opt_field "parameters" f.parameters end))

unfoldable pub custom_tool_map : CustomTool → Fields
custom_tool_map c =
    text_field "name" c.name
      (text_field "description" c.description (opt_field "input" c.input end))

-- a map over what is there: the two are merged where that is a map too
abbrev pub over_existing : (Fields → Fields) → Fields → Option Json → Json
over_existing merge nested (some (obj existing)) = obj (merge existing)
over_existing merge nested _ = obj nested

-- deepOverlay: what `dst` becomes
unfoldable pub deep_overlay : Fields → Fields → Fields
unfolding get_field put_field
deep_overlay dst end = dst
deep_overlay dst (field k (obj nested) src) =
    let v =
      over_existing (λ (existing : Fields). deep_overlay existing nested) nested
        (get_field k dst) in
    deep_overlay (put_field k v dst) src
deep_overlay dst (field k v src) = deep_overlay (put_field k v dst) src

-- the object that `out` starts from
abbrev raw_object : Option Json → Fields
raw_object (some (obj m)) = m
raw_object _ = end

abbrev overlay_at : String → Option Fields → Fields → Fields
overlay_at k none out = out
overlay_at k (some src) out = elim (get_field k out) [
  | some (obj existing) ↦ put_field k (obj (deep_overlay existing src)) out
  | _ ↦ put_field k (obj src) out
]

abbrev map_opt : {A : Type 0} → (A → Fields) → Option A → Option Fields
map_opt f none = none
map_opt f (some a) = some (f a)

-- (Tool).UpstreamObject
unfoldable pub upstream_object : Tool → Fields
unfolding deep_overlay function_tool_map custom_tool_map get_field put_field
upstream_object t =
    let out = raw_object t.raw in
    let typed = if is_empty t.typ then out else put_field "type" (str t.typ) out in
    overlay_at "custom" (map_opt custom_tool_map t.custom)
      (overlay_at "function" (map_opt function_tool_map t.function) typed)
