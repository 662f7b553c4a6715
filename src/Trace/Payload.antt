-- ===== src/Trace/Payload.antt =====
-- internal/trace/trace.go: what a session gathers of its request, and the files of full traces that it
-- is written to. Opening and compressing a file is taken to succeed.
use providerapi.Prelude.{
  String, Bool, true, false, Option, none, some, List, [], ◌∷◌, if◌then◌else◌,
}
use providerapi.Dict.{Dict, get, put}
use providerapi.Json.{Json, null, obj, arr, Fields, end, field, items_of}
use providerapi.Redact.{RawJson, json, redact_value}

pub record Payload : Type 0 where
  pub client_raw : Option RawJson
  pub normalized : Option Json
  pub routing : Option Json
  pub plugin_request : Option Json
  pub provider_request : Option Json
  pub provider_response : Option Json
  pub client_response : Option Json
  pub sse : List Json

abbrev pub no_payload : Payload
no_payload = record {
  client_raw = none;
  normalized = none;
  routing = none;
  plugin_request = none;
  provider_request = none;
  provider_response = none;
  client_response = none;
  sse = [];
}

-- whether encoding/json accepts the payload: a body that is no JSON may stand in it
abbrev pub encodable : Payload → Bool
encodable p = elim p.client_raw [ none ↦ true | some (json v) ↦ true | some _ ↦ false ]

-- `omitempty` for a field of type `any`
abbrev part : String → Option Json → Fields → Fields
part k none m = m
part k (some v) m = field k v m

-- a client's body of `null` becomes nil, which is left out
abbrev raw_part : Option RawJson → Option Json
raw_part (some (json null)) = none
raw_part (some (json v)) = some v
raw_part _ = none

abbrev sse_part : List Json → Option Json
sse_part [] = none
sse_part (v ∷ vs) = some (arr (items_of (v ∷ vs)))

-- the JSON of an encodable payload
abbrev pub payload_json : Payload → Json
payload_json p = obj (
    part "client_raw" (raw_part p.client_raw) (
      part "normalized" p.normalized (
        part "routing" p.routing (
          part "plugin_request" p.plugin_request (
            part "provider_request" p.provider_request (
              part "provider_response" p.provider_response
                (part "client_response" p.client_response (part "sse" (sse_part p.sse) end))))))))

-- The files in the directory of traces by request id; `none` is a file with nothing in it.
abbrev pub Files : Type 0
Files = Dict (Option Json)

-- writeFull: the file is emptied first, and stays so when the encoder refuses the payload
unfoldable pub write_full : String → Payload → Files → Files
unfolding put redact_value
write_full id p files =
    put id (if encodable p then some (redact_value (payload_json p)) else none) files

-- LoadFull: `none` for a file that is missing or has nothing in it
unfoldable pub load_full : String → Files → Option Json
unfolding get
load_full id files = elim (get id files) [ some (some v) ↦ some v | _ ↦ none ]
