-- ===== src/Protocol/Tool/RoundTrip.antt =====
-- internal/protocol/tool.go: decoding what was encoded.
use mathlib.Core.Path.{subst}
use providerapi.Prelude.{String, ◌≡◌, refl, sym, ap, Option, none, some}
use providerapi.Json.{Json}
use providerapi.Protocol.Types.{Tool, FunctionTool, CustomTool}
use providerapi.Protocol.Tool.{
  decode_function, decode_custom, unmarshal_tool, encode_function, encode_custom, marshal_tool,
}

decode_function-encode_parts :
    (name description : String) (parameters : Option Json)
    → let f : FunctionTool = record {
      name = name;
      description = description;
      parameters = parameters;
    } in
      decode_function (encode_function f) ≡ some f
unfolding decode_function encode_function
decode_function-encode_parts name String.[] none = refl
decode_function-encode_parts name String.[] (some p) = refl
decode_function-encode_parts name (String.◌∷◌ c s) none = refl
decode_function-encode_parts name (String.◌∷◌ c s) (some p) = refl

decode_custom-encode_parts :
    (name description : String) (input : Option Json)
    → let c : CustomTool = record { name = name; description = description; input = input } in
      decode_custom (encode_custom c) ≡ some c
unfolding decode_custom encode_custom
decode_custom-encode_parts String.[] String.[] none = refl
decode_custom-encode_parts String.[] String.[] (some p) = refl
decode_custom-encode_parts String.[] (String.◌∷◌ c s) none = refl
decode_custom-encode_parts String.[] (String.◌∷◌ c s) (some p) = refl
decode_custom-encode_parts (String.◌∷◌ d t) String.[] none = refl
decode_custom-encode_parts (String.◌∷◌ d t) String.[] (some p) = refl
decode_custom-encode_parts (String.◌∷◌ d t) (String.◌∷◌ c s) none = refl
decode_custom-encode_parts (String.◌∷◌ d t) (String.◌∷◌ c s) (some p) = refl

decode_function-encode_function : (f : FunctionTool) → decode_function (encode_function f) ≡ some f
decode_function-encode_function f = decode_function-encode_parts f.name f.description f.parameters

decode_custom-encode_custom : (c : CustomTool) → decode_custom (encode_custom c) ≡ some c
decode_custom-encode_custom c = decode_custom-encode_parts c.name c.description c.input

abbrev tool : String → Option FunctionTool → Option CustomTool → Json → Tool
tool typ function custom raw = record {
  typ = typ;
  function = function;
  custom = custom;
  raw = some raw;
}

unmarshal_tool-marshal_parts :
    (typ : String) (function : Option FunctionTool) (custom : Option CustomTool) (raw : Json)
    → unmarshal_tool (marshal_tool (tool typ function custom raw))
      ≡ some (tool typ function custom raw)
unfolding unmarshal_tool marshal_tool
unmarshal_tool-marshal_parts String.[] none none raw = refl
unmarshal_tool-marshal_parts String.[] none (some c) raw = rw (decode_custom-encode_custom c) refl
unmarshal_tool-marshal_parts String.[] (some f) none raw =
    rw (decode_function-encode_function f) refl
unmarshal_tool-marshal_parts String.[] (some f) (some c) raw =
    rw (decode_function-encode_function f, decode_custom-encode_custom c) refl
unmarshal_tool-marshal_parts (String.◌∷◌ x s) none none raw = refl
unmarshal_tool-marshal_parts (String.◌∷◌ x s) none (some c) raw =
    rw (decode_custom-encode_custom c) refl
unmarshal_tool-marshal_parts (String.◌∷◌ x s) (some f) none raw =
    rw (decode_function-encode_function f) refl
unmarshal_tool-marshal_parts (String.◌∷◌ x s) (some f) (some c) raw =
    rw (decode_function-encode_function f, decode_custom-encode_custom c) refl

-- A tool that carries the object it was read from goes through MarshalJSON and UnmarshalJSON unchanged, in
-- every part.
unmarshal_tool-marshal_tool :
    (t : Tool) (raw : Json) → t.raw ≡ some raw → unmarshal_tool (marshal_tool t) ≡ some t
unmarshal_tool-marshal_tool t raw e =
    let same : tool t.typ t.function t.custom raw ≡ t = ap (λ r. record t { raw = r }) (sym e) in
    subst (λ u. unmarshal_tool (marshal_tool u) ≡ some u) same
      (unmarshal_tool-marshal_parts t.typ t.function t.custom raw)
