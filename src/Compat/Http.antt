-- ===== src/Compat/Http.antt =====
-- plugins/openai-compat/main.go: the headers of an upstream request, and upstream failures as errors.
use providerapi.Prelude.{
  ℕ, String, Bool, ◌||◌, Option, none, some, List, [], ◌∷◌, eqb, if◌then◌else◌,
}
use providerapi.Text.{codes, contains, to_lower, is_empty, trim_space, trim_right, ◌<>◌}
use providerapi.Dict.{Dict, put}
use providerapi.Protocol.Types.{ProviderError}
use providerapi.Protocol.Errors.{new_provider_error, timeout, map_provider_status}
use providerapi.Sdk.{Decoded, good, bad}
use providerapi.Compat.Body.{InstanceConfig}

-- bearerToken, from the two variables of the environment
unfoldable pub bearer_token : String → String → String
bearer_token credential api_key = if is_empty credential then api_key else credential

-- the loop over the extra headers
unfoldable pub put_all {ℓ} : {V : Type ℓ} → Dict V → Dict V → Dict V
unfolding put
put_all [] m = m
put_all ((k, v) ∷ extra) m = put_all extra (put k v m)

-- the headers of newRequest
unfoldable pub request_headers : String → InstanceConfig → Dict String
unfolding put_all put
request_headers key cfg =
    let plain = ("Content-Type", "application/json") ∷ [] in
    put_all cfg.extra_headers
      (if is_empty key then plain else put "Authorization" ("Bearer " <> key) plain)

-- the URL of newRequest
unfoldable pub request_url : InstanceConfig → String
unfolding trim_right
request_url cfg = trim_right (λ c. eqb c b'/') cfg.base_url <> "/chat/completions"

-- headerMap
unfoldable pub header_map : Dict (List String) → Dict String
header_map [] = []
header_map ((k, []) ∷ h) = header_map h
header_map ((k, v ∷ _) ∷ h) = (k, v) ∷ header_map h

-- The envelope of an upstream error: its message, and its code as fmt.Sprint writes it.
pub record ErrorEnv : Type 0 where
  pub message : String
  pub code : String

-- parseUpstreamError, where `decimal` is the decimal text of a number
unfoldable pub parse_upstream_error :
    (ℕ → String) → ℕ → String → Decoded ErrorEnv → String → ProviderError
unfolding map_provider_status trim_space
parse_upstream_error decimal status raw (bad e) req_id =
    map_provider_status decimal status (trim_space raw) "" req_id
parse_upstream_error decimal status raw (good env) req_id =
    if is_empty env.message
    then map_provider_status decimal status (trim_space raw) "" req_id
    else map_provider_status decimal status env.message env.code req_id

-- An error of the HTTP client: its text, and whether os.IsTimeout holds of it.
pub record TransportError : Type 0 where
  pub text : String
  pub is_timeout : Bool

-- mapTransport
unfoldable pub map_transport : Option TransportError → ProviderError
unfolding new_provider_error timeout to_lower
map_transport none = new_provider_error 502 "provider_error" "unknown transport error"
map_transport (some e) =
    if e.is_timeout || contains (to_lower e.text) (codes "timeout")
    then timeout e.text
    else if contains (to_lower e.text) (codes "connection reset")
    then new_provider_error 502 "connection_reset" e.text
    else new_provider_error 502 "provider_error" e.text
