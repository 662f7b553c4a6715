-- ===== src/Trace/Session.antt =====
-- internal/trace/trace.go: the trace of one request. An operation is a function on the store and the
-- session; the time is an argument.
pub mod Use
pub mod Audit
pub mod Events
pub mod Kept
use providerapi.Prelude.{
  ℕ, zero, suc, String, Bool, true, false, ◌&&◌, ◌||◌, Option, none, some, List, [], ◌∷◌, ◌++◌,
  ◌==◌, if◌then◌else◌,
}
use providerapi.Prelude.Int.{ℤ, pos, sub_int}
use providerapi.Text.{is_empty}
use providerapi.Json.{Json, str, obj, end, field, null, get_field, Fields}
use providerapi.Redact.{RawJson, json, redact_value, redact_json}
use providerapi.Protocol.Types.{CompletionRequest}
use providerapi.Trace.Store.{Store, RequestRow, upsert_request, insert_event}
use providerapi.Trace.Payload.{Payload, Files, no_payload, write_full}
use providerapi.Trace.Summary.{
  summarize_client_raw, summarize_completion_request, summarize_provider_audit,
}

abbrev pub is_off : String → Bool
is_off level = level == "off"

abbrev pub is_full : String → Bool
is_full level = level == "full"

-- A session, with the store that it writes to; `files` are the files of full traces.
pub record Session : Type 0 where
  pub store : Store
  pub level : String
  pub row : RequestRow
  pub seq : ℕ
  pub payload : Payload
  pub files : Files

-- the level of New
unfoldable pub service_level : String → String
service_level level = if is_empty level then "metadata" else level

abbrev pub first_row : String → String → ℤ → RequestRow
first_row id client_request_id now = record {
  id = id;
  client_request_id = client_request_id;
  started_at = now;
  finished_at = pos 0;
  client_model = "";
  provider = "";
  upstream_model = "";
  reasoning = "";
  status = "started";
  finish_reason = "";
  http_status = 0;
  input_tokens = pos 0;
  output_tokens = pos 0;
  ttft_ms = pos 0;
  duration_ms = pos 0;
  error_type = "";
  error_code = "";
  error_message = "";
  plugin_id = "";
  plugin_version = "";
}

-- (*Service).Start
unfoldable pub start : String → String → String → ℤ → Store → Files → Session
unfolding upsert_request
start level id client_request_id now st files =
    let row = first_row id client_request_id now in
    record {
      store = if is_off level then st else upsert_request row st;
      level = level;
      row = row;
      seq = 0;
      payload = no_payload;
      files = files;
    }

-- event; a payload that is no JSON is not stored, and its number is used up
unfoldable pub event : String → RawJson → Session → Session
unfolding insert_event redact_value
event typ payload s = if is_off s.level then s else elim payload [
  | json v ↦ record s {
    seq = suc s.seq;
    store = insert_event s.row.id (suc s.seq) typ (redact_value v) s.store;
  }
  | _ ↦ record s { seq = suc s.seq }
]

-- SetRouting
unfoldable pub set_routing : String → String → String → String → String → String → Session → Session
set_routing client_model provider upstream reasoning plugin_id plugin_version s =
    let routing = obj (
      field "client_model" (str client_model) (
        field "provider" (str provider) (
          field "upstream_model" (str upstream) (
            field "reasoning" (str reasoning) (
              field "plugin" (str plugin_id)
                (field "plugin_version" (str plugin_version) end)))))) in
    event "routing" (json routing) (record s {
      row = record s.row {
        client_model = client_model;
        provider = provider;
        upstream_model = upstream;
        reasoning = reasoning;
        plugin_id = plugin_id;
        plugin_version = plugin_version;
      };
      payload = record s.payload { routing = some routing };
    })

-- ClientRaw
unfoldable pub client_raw : (Json → String) → RawJson → Session → Session
unfolding redact_json summarize_client_raw
client_raw size v s =
    if is_full s.level
    then event "client_raw" (redact_json v)
        (record s { payload = record s.payload { client_raw = some (redact_json v) } })
    else let summary = summarize_client_raw size v in
      event "client_raw" (json summary)
        (record s { payload = record s.payload { client_raw = some (json summary) } })

-- `encode` is the JSON of a canonical request, `decimal` the decimal text of a number.
module _ (encode : CompletionRequest → Json) (decimal : ℕ → String) where
  abbrev view : String → CompletionRequest → Json
  view level req =
      if is_full level then redact_value (encode req) else summarize_completion_request decimal req

  -- Normalized
  unfoldable pub normalized : CompletionRequest → Session → Session
  unfolding summarize_completion_request redact_value
  normalized req s =
      event "normalized" (json (view s.level req))
        (record s { payload = record s.payload { normalized = some (view s.level req) } })

  -- PluginRequest
  unfoldable pub plugin_request : CompletionRequest → Session → Session
  unfolding summarize_completion_request redact_value
  plugin_request req s =
      event "plugin_request" (json (view s.level req))
        (record s { payload = record s.payload { plugin_request = some (view s.level req) } })

-- StreamMeta
unfoldable pub stream_meta : String → Session → Session
stream_meta kind s =
    if is_full s.level then s else event kind (json (obj (field "event" (str kind) end))) s

-- SSE
unfoldable pub sse : Json → Session → Session
sse chunk s =
    if is_full s.level
    then record s { payload = record s.payload { sse = s.payload.sse ++ chunk ∷ [] } }
    else s

-- ClientResponse
unfoldable pub client_response : Json → Session → Session
unfolding redact_value
client_response v s =
    let s' = record s { payload = record s.payload { client_response = some (redact_value v) } } in
    if is_full s.level then event "client_response" (json v) s' else s'

abbrev pub is_zero : ℤ → Bool
is_zero (pos zero) = true
is_zero _ = false

-- MarkTTFT, with the milliseconds since the start
unfoldable pub mark_ttft : ℤ → Session → Session
mark_ttft elapsed s =
    if is_zero s.row.ttft_ms then record s { row = record s.row { ttft_ms = elapsed } } else s

-- The arguments of Finish.
pub record Ending : Type 0 where
  pub http_status : ℕ
  pub status : String
  pub finish : String
  pub in_tok : ℤ
  pub out_tok : ℤ
  pub err_type : String
  pub err_code : String
  pub err_msg : String

-- the row of Finish
abbrev pub final_row : ℤ → Ending → RequestRow → RequestRow
final_row now e row = record row {
  finished_at = now;
  duration_ms = sub_int now row.started_at;
  http_status = e.http_status;
  status = e.status;
  finish_reason = e.finish;
  input_tokens = e.in_tok;
  output_tokens = e.out_tok;
  error_type = e.err_type;
  error_code = e.err_code;
  error_message = e.err_msg;
}

-- Finish
unfoldable pub finish : ℤ → Ending → Session → Session
unfolding upsert_request sub_int
finish now e s =
    let s' = record s { row = final_row now e s.row } in
    if is_off s.level then s' else record s' {
      store = upsert_request s'.row s.store;
      files = if is_full s.level then write_full s.row.id s.payload s.files else s.files;
    }
