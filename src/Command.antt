-- ===== src/Command.antt =====
-- cmd/providerapi/main.go: the commands, and what `trace` prints of the administrator's JSON.
pub mod Audits
pub mod Print
pub mod Run
use providerapi.Prelude.{
  ℕ, String, Bool, true, false, ◌||◌, Option, none, some, List, [], ◌∷◌, ◌++◌, map, leb, eqb, ◌==◌,
  ◌⊎◌, inl, inr, if◌then◌else◌,
}
use providerapi.Prelude.Sort.{sort}
use providerapi.Text.{is_empty, text_before, trim_right, ◌<>◌}
use providerapi.Json.{
  Json, null, bool, num, str, arr, obj, Items, nil, cons, Fields, end, field, get_field,
}

-- What main is asked to do.
pub data Command : Type 0 where
  serve : Command
  fetch : String → Command
  trace : Command
  help : Command
  unknown : String → Command
  no_command : Command

-- the `switch` of main, on the arguments behind the program's name
unfoldable pub command_of : List String → Command
command_of [] = no_command
command_of (cmd ∷ args) =
    if cmd == "serve"
    then serve
    else if cmd == "models"
    then fetch "/admin/models"
    else if cmd == "plugins"
    then fetch "/admin/plugins"
    else if cmd == "requests"
    then fetch "/admin/requests"
    else if cmd == "trace"
    then trace
    else if cmd == "help" || cmd == "-h" || cmd == "--help"
    then help
    else unknown cmd

-- The end of an HTTP request: an error, or the status with its text, and the body.
pub data Fetched : Type 0 where
  broken : String → Fetched
  fetched : ℕ → String → String → Fetched

-- What is asked of the administrator's interface.
pub record Ask : Type 0 where
  pub url : String
  pub token : Option String

-- adminGET: the request
abbrev pub ask_of : String → String → String → Ask
ask_of base token path = record {
  url = trim_right (λ c. eqb c b'/') base <> path;
  token = if is_empty token then none else some token;
}

-- adminGET: the body or an error's text
unfoldable pub admin_get : (Ask → Fetched) → String → String → String → String ⊎ String
unfolding trim_right
admin_get http base token path = elim (http (ask_of base token path)) [
  | broken e ↦ inr e
  | fetched code status text ↦
      if leb 400 code then inr ("admin " <> (status <> (": " <> text))) else inl text
]

-- v.(map[string]any), or nil
abbrev pub object_of : Option Json → Fields
object_of (some (obj m)) = m
object_of _ = end

-- json.Unmarshal of a text into a map: `some none` is nil
abbrev pub map_of : Option Json → Option (Option Fields)
map_of (some (obj m)) = some (some m)
map_of (some null) = some none
map_of _ = none

abbrev pub or_empty : Option (Option Fields) → Option Fields
or_empty (some m) = m
or_empty none = some end

-- eventPayload, where `parse` decodes a text as JSON; `none` is a nil map
unfoldable pub event_payload : (String → Option Json) → Fields → Option Fields
unfolding get_field
event_payload parse ev = elim (get_field "payload" ev) [
  | some (obj m) ↦ some m
  | some (str s) ↦ or_empty (map_of (parse s))
  | _ ↦ some end
]

abbrev fields_of : Option Fields → Fields
fields_of none = end
fields_of (some m) = m

abbrev text_of : Option Json → String
text_of (some (str s)) = s
text_of _ = ""

-- the audits of the upstream's request and response, as far as they were found
abbrev pub Audits : Type 0
Audits = Option Fields × Option Fields

abbrev pub take_audit : String → Option Fields → Audits → Audits
take_audit typ payload (req, resp) =
    if typ == "provider_request"
    then (payload, resp)
    else if typ == "provider_response"
    then (req, payload)
    else (req, resp)

module _ (parse : String → Option Json) where
  -- the type of an event, or else of its payload
  abbrev pub event_type : Fields → String
  event_type ev =
      let typ = text_of (get_field "type" ev) in
      if is_empty typ then text_of (get_field "type" (fields_of (event_payload parse ev))) else typ

  -- the loop of providerAuditEvents
  unfoldable pub scan_audits : Items → Audits → Audits
  unfolding get_field event_payload
  scan_audits nil found = found
  scan_audits (cons (obj ev) evs) found =
      scan_audits evs (take_audit (event_type ev) (event_payload parse ev) found)
  scan_audits (cons v evs) found = scan_audits evs found

  abbrev timeline_of : Option Json → Items
  timeline_of (some (arr evs)) = evs
  timeline_of _ = nil

  -- providerAuditEvents
  unfoldable pub provider_audit_events : Fields → Audits
  unfolding get_field scan_audits
  provider_audit_events data_ = scan_audits (timeline_of (get_field "timeline" data_)) (none, none)
