-- ===== src/Api/Admin.antt =====
-- internal/api/admin.go: the administrator's interface. The router is a choice among its routes; the
-- database is given with the error that it answers a query with, if any.
pub mod Routes
pub mod Shown
use providerapi.Prelude.{
  ℕ, String, Bool, true, false, Option, none, some, List, [], ◌∷◌, map, ◌==◌, if◌then◌else◌,
}
use providerapi.Prelude.Int.{ℤ, pos}
use providerapi.Text.{is_empty, trim_prefix}
use providerapi.Dict.{Dict}
use providerapi.Json.{Json, null, bool, num, str, arr, obj, Fields, end, field, items_of}
use providerapi.Config.{Config}
use providerapi.Protocol.Types.{Manifest}
use providerapi.Model.{AdminModelInfo, list_admin_models}
use providerapi.Plugin.Instance.{Instance}
use providerapi.Trace.Store.{RequestRow, EventRow, Store, list_requests, get_request, list_events}
use providerapi.Trace.Payload.{Files, load_full}
use providerapi.Api.Console.{serve_console}
use providerapi.Api.Request.{Reply, answer}

abbrev error_reply : ℕ → String → Reply
error_reply status text = answer status (obj (field "error" (str text) end))

abbrev data_reply : Json → Reply
data_reply v = answer 200 (obj (field "data" v end))

-- a slice that was never appended to is encoded as null
abbrev pub slice : List Json → Json
slice [] = null
slice (v ∷ vs) = arr (items_of (v ∷ vs))

-- boolGauge
abbrev pub bool_gauge : Bool → ℕ
bool_gauge true = 1
bool_gauge false = 0

-- `decimal` is the decimal text of an integer and `digits` of a number; `pid` is the number of an
-- instance's process and `stamp` the time of an event.
module _ (decimal : ℤ → String) (digits : ℕ → String) (pid : Instance → ℤ)
    (stamp : EventRow → ℤ) where
  abbrev int : ℤ → Json
  int n = num (decimal n)

  -- a RequestRow in JSON
  abbrev pub row_json : RequestRow → Json
  row_json r = obj (
      field "id" (str r.id) (
        field "client_request_id" (str r.client_request_id) (
          field "started_at" (int r.started_at) (
            field "finished_at" (int r.finished_at) (
              field "client_model" (str r.client_model) (
                field "provider" (str r.provider) (
                  field "upstream_model" (str r.upstream_model) (
                    field "reasoning" (str r.reasoning) (
                      field "status" (str r.status) (
                        field "finish_reason" (str r.finish_reason) (
                          field "http_status" (num (digits r.http_status)) (
                            field "input_tokens" (int r.input_tokens) (
                              field "output_tokens" (int r.output_tokens) (
                                field "ttft_ms" (int r.ttft_ms) (
                                  field "duration_ms" (int r.duration_ms) (
                                    field "error_type" (str r.error_type) (
                                      field "error_code" (str r.error_code) (
                                        field "error_message" (str r.error_message) (
                                          field "plugin_id" (str r.plugin_id) (
                                            field "plugin_version" (str r.plugin_version)
                                              end))))))))))))))))))))

  -- listRequests
  unfoldable pub requests : Option String → Store → Reply
  unfolding list_requests
  requests (some e) st = error_reply 500 e
  requests none st = data_reply (slice (map row_json (list_requests (pos 100) st)))

  abbrev pub event_json : EventRow → Json
  event_json e = obj (
      field "seq" (num (digits e.seq))
        (field "ts" (int (stamp e)) (field "type" (str e.typ) (field "payload" e.payload end))))

  abbrev error_json : RequestRow → Json
  error_json r =
      if is_empty r.error_message
      then null
      else obj (
          field "type" (str r.error_type)
            (field "code" (str r.error_code) (field "message" (str r.error_message) end)))

  abbrev full_part : Option Json → Fields
  full_part none = end
  full_part (some v) = field "full" v end

  -- the JSON of getRequest
  abbrev pub detail : RequestRow → List EventRow → Option Json → Fields
  detail r events full = field "request_id" (str r.id) (
      field "http_status" (num (digits r.http_status)) (
        field "started_at" (int r.started_at) (
          field "client"
            (obj (
              field "model" (str r.client_model)
                (field "client_request_id" (str r.client_request_id) end)))
            (field "normalized" (obj (field "reasoning" (str r.reasoning) end)) (
              field "routing"
                (obj (
                  field "provider" (str r.provider) (
                    field "upstream_model" (str r.upstream_model) (
                      field "plugin" (str r.plugin_id)
                        (field "plugin_version" (str r.plugin_version) end)))))
                (field "upstream" (obj (field "model" (str r.upstream_model) end)) (
                  field "timeline" (arr (items_of (map event_json events))) (
                    field "usage"
                      (obj (
                        field "input_tokens" (int r.input_tokens) (
                          field "output_tokens" (int r.output_tokens) (
                            field "ttft_ms" (int r.ttft_ms)
                              (field "duration_ms" (int r.duration_ms) end)))))
                      (field "error" (error_json r) (full_part full))))))))))

  -- getRequest
  unfoldable pub request : Option String → String → Store → Files → Reply
  unfolding get_request list_events load_full
  request (some e) id st files = error_reply 500 e
  request none id st files = elim (get_request id st) [
    | none ↦ error_reply 404 "not found"
    | some r ↦ answer 200 (obj (detail r (list_events id st) (load_full id files)))
  ]

  abbrev version_of : Option Manifest → String
  version_of none = ""
  version_of (some m) = m.version

  abbrev protocol_of : Option Manifest → String
  protocol_of none = ""
  protocol_of (some m) = m.protocol_version

  abbrev flags : Bool → Bool → Bool → Json
  flags stream tools reasoning = obj (
      field "stream" (bool stream)
        (field "tools" (bool tools) (field "reasoning" (bool reasoning) end)))

  abbrev capabilities_of : Option Manifest → Json
  capabilities_of none = flags false false false
  capabilities_of (some m) =
      flags m.capabilities.stream m.capabilities.tools m.capabilities.reasoning

  abbrev last_error_part : String → Fields
  last_error_part text = if is_empty text then end else field "last_error" (str text) end

  abbrev instance_json : Instance → Json
  instance_json i = obj (
      field "instance_id" (str i.id) (
        field "plugin" (str i.plugin) (
          field "version" (str (version_of i.manifest)) (
            field "protocol_version" (str (protocol_of i.manifest)) (
              field "healthy" (bool i.healthy) (
                field "pid" (int (pid i)) (
                  field "capabilities" (capabilities_of i.manifest)
                    (last_error_part i.last_error))))))))

  -- listPlugins: the reply, and what the health gauge of every instance is set to
  unfoldable pub plugins : Dict Instance → Reply × List (String × ℕ)
  plugins instances = (
    data_reply (slice (map (λ e. instance_json e.1) instances)),
    map (λ e. (e.1.id, bool_gauge e.1.healthy)) instances,
  )

  abbrev model_json : AdminModelInfo → Json
  model_json m = obj (
      field "id" (str m.id) (
        field "provider" (str m.provider) (
          field "upstream_model" (str m.upstream_model) (
            field "reasoning" (str m.reasoning) (
              field "context_length" (int m.context_length)
                (field "context_length_source" (str m.context_length_source) end))))))

  -- listModels
  unfoldable pub models : Config → Reply
  unfolding list_admin_models
  models cfg = data_reply (arr (items_of (map model_json (list_admin_models cfg))))
