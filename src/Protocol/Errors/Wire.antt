-- ===== src/Protocol/Errors/Wire.antt =====
-- internal/protocol/errors.go: a ProviderError as encoding/json writes and reads it, by the tags of its fields.
use providerapi.Prelude.{ℕ, zero, suc, ◌≤◌, String, Option, none, some, ◌≡◌, refl}
use providerapi.Text.Decimal.{max_int, print_int, parse_int, parse_int-print_int}
use providerapi.Json.{Json, null, num, str, obj, Fields, end, field, struct_field, string_field}
use providerapi.Protocol.Types.{ProviderError}
use providerapi.Protocol.Content.{◌>>=◌, text_field}

-- an int with omitempty
abbrev int_field : String → ℕ → Fields → Fields
int_field k zero rest = rest
int_field k (suc n) rest = field k (num (print_int (suc n))) rest

-- json.Marshal of a *ProviderError
unfoldable pub encode_provider_error : ProviderError → Json
encode_provider_error pe = obj (
    field "message" (str pe.message) (
      field "type" (str pe.typ) (
        field "code" (str pe.code) (
          field "param" pe.param (
            int_field "http_status" pe.http_status (
              int_field "provider_status" pe.provider_status (
                text_field "provider_error_code" pe.provider_error_code
                  (text_field "provider_request_id" pe.provider_request_id end))))))))

-- Decoding into a field of type `int`: null and a missing key leave it 0.
abbrev number_field : Option Json → Option ℕ
number_field none = some 0
number_field (some null) = some 0
number_field (some (num s)) = parse_int s
number_field (some _) = none

-- Decoding into a field of type `any`
abbrev any_field : Option Json → Json
any_field none = null
any_field (some v) = v

-- json.Unmarshal into a ProviderError that is empty: `none` is an error
unfoldable pub decode_provider_error : Json → Option ProviderError
unfolding struct_field
decode_provider_error null = some (record {
  message = "";
  typ = "";
  code = "";
  param = null;
  http_status = 0;
  provider_status = 0;
  provider_error_code = "";
  provider_request_id = "";
})
decode_provider_error (obj fs) = do
  message ← string_field (struct_field "message" fs)
  typ ← string_field (struct_field "type" fs)
  code ← string_field (struct_field "code" fs)
  http_status ← number_field (struct_field "http_status" fs)
  provider_status ← number_field (struct_field "provider_status" fs)
  provider_error_code ← string_field (struct_field "provider_error_code" fs)
  provider_request_id ← string_field (struct_field "provider_request_id" fs)
  some (record {
    message = message;
    typ = typ;
    code = code;
    param = any_field (struct_field "param" fs);
    http_status = http_status;
    provider_status = provider_status;
    provider_error_code = provider_error_code;
    provider_request_id = provider_request_id;
  })
decode_provider_error _ = none

-- The statuses are ints of 64 bits.
pub record Fits (pe : ProviderError) : Type 0 where
  pub http : pe.http_status ≤ max_int
  pub upstream : pe.provider_status ≤ max_int

decode-encode_parts :
    (message typ code : String) (param : Json) (http upstream : ℕ) (upstream_code id : String)
    → http ≤ max_int
    → upstream ≤ max_int
    → let pe : ProviderError = record {
      message = message;
      typ = typ;
      code = code;
      param = param;
      http_status = http;
      provider_status = upstream;
      provider_error_code = upstream_code;
      provider_request_id = id;
    } in
      decode_provider_error (encode_provider_error pe) ≡ some pe
unfolding decode_provider_error encode_provider_error struct_field
decode-encode_parts e t k p zero zero String.[] String.[] m n = refl
decode-encode_parts e t k p zero zero String.[] (String.◌∷◌ y ys) m n = refl
decode-encode_parts e t k p zero zero (String.◌∷◌ x xs) String.[] m n = refl
decode-encode_parts e t k p zero zero (String.◌∷◌ x xs) (String.◌∷◌ y ys) m n = refl
decode-encode_parts e t k p zero (suc u) String.[] String.[] m n =
    rw (parse_int-print_int (suc u) n) refl
decode-encode_parts e t k p zero (suc u) String.[] (String.◌∷◌ y ys) m n =
    rw (parse_int-print_int (suc u) n) refl
decode-encode_parts e t k p zero (suc u) (String.◌∷◌ x xs) String.[] m n =
    rw (parse_int-print_int (suc u) n) refl
decode-encode_parts e t k p zero (suc u) (String.◌∷◌ x xs) (String.◌∷◌ y ys) m n =
    rw (parse_int-print_int (suc u) n) refl
decode-encode_parts e t k p (suc h) zero String.[] String.[] m n =
    rw (parse_int-print_int (suc h) m) refl
decode-encode_parts e t k p (suc h) zero String.[] (String.◌∷◌ y ys) m n =
    rw (parse_int-print_int (suc h) m) refl
decode-encode_parts e t k p (suc h) zero (String.◌∷◌ x xs) String.[] m n =
    rw (parse_int-print_int (suc h) m) refl
decode-encode_parts e t k p (suc h) zero (String.◌∷◌ x xs) (String.◌∷◌ y ys) m n =
    rw (parse_int-print_int (suc h) m) refl
decode-encode_parts e t k p (suc h) (suc u) String.[] String.[] m n =
    rw (parse_int-print_int (suc h) m, parse_int-print_int (suc u) n) refl
decode-encode_parts e t k p (suc h) (suc u) String.[] (String.◌∷◌ y ys) m n =
    rw (parse_int-print_int (suc h) m, parse_int-print_int (suc u) n) refl
decode-encode_parts e t k p (suc h) (suc u) (String.◌∷◌ x xs) String.[] m n =
    rw (parse_int-print_int (suc h) m, parse_int-print_int (suc u) n) refl
decode-encode_parts e t k p (suc h) (suc u) (String.◌∷◌ x xs) (String.◌∷◌ y ys) m n =
    rw (parse_int-print_int (suc h) m, parse_int-print_int (suc u) n) refl

-- A provider error whose statuses are ints is read back from its JSON.
pub decode-encode_provider_error :
    (pe : ProviderError) → Fits pe → decode_provider_error (encode_provider_error pe) ≡ some pe
decode-encode_provider_error pe fits =
    decode-encode_parts pe.message pe.typ pe.code pe.param pe.http_status pe.provider_status
      pe.provider_error_code pe.provider_request_id fits.http fits.upstream
