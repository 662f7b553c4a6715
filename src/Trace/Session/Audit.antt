-- ===== src/Trace/Session/Audit.antt =====
-- internal/trace/trace.go: what a session keeps of a plugin's audit of its HTTP exchange.
use providerapi.Prelude.{String, Bool, ◌||◌, Option, none, some, ◌==◌, if◌then◌else◌}
use providerapi.Text.{is_empty}
use providerapi.Json.{Json, null, str, obj, Fields, end, field, get_field}
use providerapi.Redact.{RawJson, json, redact_json}
use providerapi.Trace.Summary.{summarize_provider_audit}
use providerapi.Trace.Session.{Session, is_full, event}

abbrev audit_fields : RawJson → Option Fields
audit_fields (json (obj m)) = some m
audit_fields _ = none

abbrev audit_type : Option Fields → String
audit_type none = ""
audit_type (some m) = elim (get_field "type" m) [ some (str t) ↦ t | _ ↦ "" ]

abbrev whole_audit : Option Fields → Json
whole_audit none = null
whole_audit (some m) = obj m

-- what summarizeProviderAudit makes of a map, which may be nil
abbrev audit_summary : (String → String) → Option Fields → Json
audit_summary strip_query none = obj (summarize_provider_audit strip_query end)
audit_summary strip_query (some m) = obj (summarize_provider_audit strip_query m)

abbrev is_exchange : String → Bool
is_exchange typ = typ == "provider_request" || typ == "provider_response"

-- the two `switch`es on the type, which keep the audit in the payload
unfoldable pub keep_audit : String → Json → Session → Session
keep_audit typ v s =
    if typ == "provider_request"
    then record s { payload = record s.payload { provider_request = some v } }
    else if typ == "provider_response"
    then record s { payload = record s.payload { provider_response = some v } }
    else s

-- ProviderAudit, where `strip_query` is stripURLQuery
unfoldable pub provider_audit : (String → String) → RawJson → Session → Session
unfolding redact_json summarize_provider_audit get_field
provider_audit strip_query raw s =
    let m = audit_fields (redact_json raw) in
    let typ = audit_type m in
    let full = is_full s.level in
    let kept = if full then whole_audit m else audit_summary strip_query m in
    let named = if is_empty typ then "provider_audit" else typ in
    event named
      (json (if full || is_exchange typ then kept else obj (field "type" (str named) end)))
      (keep_audit typ kept s)
