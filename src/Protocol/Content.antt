-- ===== src/Protocol/Content.antt =====
-- internal/protocol/content.go: a message's content, between JSON and the canonical form. `none` is the
-- error of a decoder.
pub mod RoundTrip
use providerapi.Prelude.{String, Option, none, some, List, [], ◌∷◌, map, if◌then◌else◌}
use providerapi.Text.{is_empty, ◌<>◌}
use providerapi.Json.{
  Json, null, str, arr, obj, Items, nil, cons, Fields, end, field, struct_field, string_field,
  items_of,
}
use providerapi.Protocol.Types.{ContentPart, Content}

infixl 5 ◌>>=◌
abbrev pub ◌>>=◌ {ℓ κ} : {A : Type ℓ} {B : Type κ} → Option A → (A → Option B) → Option B
none >>= f = none
some a >>= f = f a

abbrev pub empty_content : Content
empty_content = record { text = none; parts = none; raw = none }

-- json.Unmarshal into a ContentPart
unfoldable pub decode_part : Json → Option ContentPart
unfolding struct_field
decode_part null = some (record { typ = ""; text = ""; image_url = none })
decode_part (obj fs) = do
  typ ← string_field (struct_field "type" fs)
  text ← string_field (struct_field "text" fs)
  some (record { typ = typ; text = text; image_url = struct_field "image_url" fs })
decode_part _ = none

unfoldable pub decode_parts : Items → Option (List ContentPart)
unfolding decode_part
decode_parts nil = some []
decode_parts (cons v vs) = do p ← decode_part v; ps ← decode_parts vs; some (p ∷ ps)

-- (*Content).UnmarshalJSON
unfoldable pub unmarshal_content : Json → Option Content
unfolding decode_parts
unmarshal_content null = some empty_content
unmarshal_content (str s) = some (record { text = some s; parts = none; raw = some (str s) })
unmarshal_content (arr vs) = do
  ps ← decode_parts vs
  some (record { text = none; parts = some ps; raw = some (arr vs) })
unmarshal_content v = some (record { text = none; parts = none; raw = some v })

-- `omitempty` of a raw value and of a text, in front of the fields that follow
abbrev pub opt_field : String → Option Json → Fields → Fields
opt_field k none rest = rest
opt_field k (some v) rest = field k v rest

abbrev pub text_field : String → String → Fields → Fields
text_field k s rest = if is_empty s then rest else field k (str s) rest

unfoldable pub encode_part : ContentPart → Json
encode_part p =
    obj
      (field "type" (str p.typ) (text_field "text" p.text (opt_field "image_url" p.image_url end)))

abbrev encode_raw : Option Json → Json
encode_raw none = str ""
encode_raw (some v) = v

abbrev encode_parts : Option (List ContentPart) → Option Json → Json
encode_parts none raw = encode_raw raw
encode_parts (some ps) raw = arr (items_of (map encode_part ps))

-- (Content).MarshalJSON
unfoldable pub marshal_content : Content → Json
unfolding encode_part
marshal_content c = elim c.text [ some s ↦ str s | none ↦ encode_parts c.parts c.raw ]

unfoldable pub join_texts : List ContentPart → String
join_texts [] = ""
join_texts (p ∷ ps) = p.text <> join_texts ps

-- (Content).String, where `print` is the text of a raw value
unfoldable pub content_string : (Json → String) → Content → String
unfolding join_texts
content_string print c = elim c.text [
  | some s ↦ s
  | none ↦ elim c.parts [
    | some (p ∷ ps) ↦ join_texts (p ∷ ps)
    | _ ↦ elim c.raw [ none ↦ "" | some v ↦ print v ]
  ]
]

-- TextContent
unfoldable pub text_content : String → Content
text_content s = record { text = some s; parts = none; raw = some (str s) }
