-- ===== src/Protocol/Content/RoundTrip.antt =====
-- internal/protocol/content.go: what is kept of a content that is decoded, encoded and decoded again.
use providerapi.Prelude.{
  String, ◌≡◌, refl, ◌≢◌, Option, none, some, List, [], ◌∷◌, map, arith, inl, inr, Option-cases,
}
use providerapi.Json.{Json, null, bool, num, str, arr, obj, Items, items_of}
use providerapi.Protocol.Types.{Content, ContentPart}
use providerapi.Protocol.Content.{
  decode_part, decode_parts, unmarshal_content, encode_part, marshal_content,
}

decode_part-encode_fields :
    (typ text : String) (image_url : Option Json)
    → let p : ContentPart = record { typ = typ; text = text; image_url = image_url } in
      decode_part (encode_part p) ≡ some p
unfolding decode_part encode_part
decode_part-encode_fields typ String.[] none = refl
decode_part-encode_fields typ String.[] (some v) = refl
decode_part-encode_fields typ (String.◌∷◌ c s) none = refl
decode_part-encode_fields typ (String.◌∷◌ c s) (some v) = refl

decode_part-encode_part : (p : ContentPart) → decode_part (encode_part p) ≡ some p
decode_part-encode_part p = decode_part-encode_fields p.typ p.text p.image_url

decode_parts-encode_parts :
    (ps : List ContentPart) → decode_parts (items_of (map encode_part ps)) ≡ some ps
unfolding decode_parts
decode_parts-encode_parts [] = refl
decode_parts-encode_parts (p ∷ ps) =
    rw (decode_part-encode_part p, decode_parts-encode_parts ps) refl

-- The text and the parts of two contents are the same.
pub record Agree (c d : Content) : Type 0 where
  pub text_same : d.text ≡ c.text
  pub parts_same : d.parts ≡ c.parts

abbrev Again : Content → Type 0
Again c = (d : Content) × (unmarshal_content (marshal_content c) ≡ some d) × Agree c d

array-Again : (vs : Items) (c : Content) → unmarshal_content (arr vs) ≡ some c → Again c
unfolding unmarshal_content marshal_content
array-Again vs c e = elim (Option-cases (decode_parts vs)) [
  | inl bad ↦ ground arith
  | inr (ps, good) ↦
      let same : c ≡ record { text = none; parts = some ps; raw = some (arr vs) } = ground arith in
      rw same (
        record { text = none; parts = some ps; raw = some (arr (items_of (map encode_part ps))) },
        rw (decode_parts-encode_parts ps) refl,
        record { text_same = refl; parts_same = refl },
      )
]

-- A content that is decoded from any value but null keeps its text and its parts, each with its type, text
-- and image, when it is encoded and decoded again.
pub unmarshal_content-marshal_content :
    (v : Json) (c : Content)
    → v ≢ null
    → unmarshal_content v ≡ some c
    → (d : Content) × (unmarshal_content (marshal_content c) ≡ some d) × Agree c d
unfolding unmarshal_content marshal_content
unmarshal_content-marshal_content null c there e = absurd (there refl)
unmarshal_content-marshal_content (arr vs) c there e = array-Again vs c e
unmarshal_content-marshal_content (str s) c there e =
    let same : c ≡ record { text = some s; parts = none; raw = some (str s) } = ground arith in
    rw same (_, refl, record { text_same = refl; parts_same = refl })
unmarshal_content-marshal_content (bool b) c there e =
    let same : c ≡ record { text = none; parts = none; raw = some (bool b) } = ground arith in
    rw same (_, refl, record { text_same = refl; parts_same = refl })
unmarshal_content-marshal_content (num n) c there e =
    let same : c ≡ record { text = none; parts = none; raw = some (num n) } = ground arith in
    rw same (_, refl, record { text_same = refl; parts_same = refl })
unmarshal_content-marshal_content (obj m) c there e =
    let same : c ≡ record { text = none; parts = none; raw = some (obj m) } = ground arith in
    rw same (_, refl, record { text_same = refl; parts_same = refl })
