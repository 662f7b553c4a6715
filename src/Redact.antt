-- ===== src/Redact.antt =====
-- internal/redact/redact.go: what is taken out of headers and JSON values before they are stored or sent.
pub mod Safety
pub mod Secrets
use providerapi.Prelude.{
  ℕ, String, Bool, ◌||◌, Option, none, some, ◌⊎◌, inl, inr, List, [], ◌∷◌, map, any, if◌then◌else◌,
}
use providerapi.Text.{codes, same_codes, contains, replace_all, to_lower}
use providerapi.Dict.{Dict}
use providerapi.Json.{Json, null, bool, num, str, arr, obj, Items, nil, cons, Fields, end, field}

abbrev pub key_hints : List String
key_hints =
    "authorization" ∷ "api-key" ∷ "api_key" ∷ "apikey" ∷ "cookie" ∷ "token" ∷ "secret"
    ∷ "credential" ∷ "password" ∷ "x-api-key" ∷ []

abbrev pub redacted : String
redacted = "[REDACTED]"

-- HeaderName
unfoldable pub header_name : String → Bool
unfolding to_lower
header_name name =
    let n = replace_all b'_' b'-' (to_lower name) in
    any (λ h. same_codes n (codes h) || contains n (codes h)) key_hints

-- the test of Value
unfoldable pub looks_secret : String → Bool
unfolding to_lower
looks_secret s =
    let low = to_lower s in
    contains low (codes "bearer ") || contains low (codes "sk-") || contains low (codes "api_key")

-- Value
unfoldable pub value : String → String
unfolding looks_secret
value s = if looks_secret s then redacted else s

-- Headers
unfoldable pub headers : Dict String → Dict String
headers [] = []
headers ((k, v) ∷ h) = (k, (if header_name k then redacted else value v)) ∷ headers h

-- redactValue: what the value becomes
unfoldable mutual
  unfolding header_name value

  pub redact_value : Json → Json
  redact_value null = null
  redact_value (bool b) = bool b
  redact_value (num n) = num n
  redact_value (str s) = str s
  redact_value (arr vs) = arr (redact_items vs)
  redact_value (obj m) = obj (redact_fields m)

  pub redact_items : Items → Items
  redact_items nil = nil
  redact_items (cons v vs) = cons (redact_value v) (redact_items vs)

  pub redact_fields : Fields → Fields
  redact_fields end = end
  redact_fields (field k (str s) m) =
      field k (if header_name k then str redacted else str (value s)) (redact_fields m)
  redact_fields (field k v m) =
      let child = redact_value v in
      field k (if header_name k then str redacted else child) (redact_fields m)

-- A json.RawMessage: empty, no JSON, or a value.
pub data RawJson : Type 0 where
  empty : RawJson
  malformed : String → RawJson
  json : Json → RawJson

-- JSON
unfoldable pub redact_json : RawJson → RawJson
unfolding redact_value
redact_json empty = empty
redact_json (malformed s) = malformed s
redact_json (json v) = json (redact_value v)

-- Any, where `encode` goes through encoding/json and back: the value as it is where that fails
unfoldable pub redact_any {ℓ} : {A : Type ℓ} → (A → Option Json) → A → A ⊎ Json
unfolding redact_value
redact_any encode v = elim (encode v) [ none ↦ inl v | some x ↦ inr (redact_value x) ]
