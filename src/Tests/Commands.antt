-- ===== src/Tests/Commands.antt =====
-- The application with one plugin, and the detail of a request with two audits.
use providerapi.Prelude.{ℕ, String, ◌≡◌, refl, true, none, Option, List, [], ◌∷◌}
use providerapi.Prelude.Int.{ℤ, pos}
use providerapi.Json.{Json, str, obj, end, field}
use providerapi.Plugin.Instance.{Instance}
use providerapi.Trace.Store.{EventRow, empty_store, RequestRow}
use providerapi.Trace.Session.{first_row}
use providerapi.App.{App}
use providerapi.Plugin.Instance.{no_socket}
use providerapi.Plugin.Instance.Life.{Life, exits, wakes, starts}
use providerapi.Api.Admin.{detail}
use providerapi.Command.{provider_audit_events}
use providerapi.Command.Audits.{shown, last_event, provider_audit_events-detail}
use providerapi.Tests.Api.{digits}

abbrev app : App
app = record { instances = []; store = empty_store; is_open = true; gauges = [] }

abbrev pid : Instance → ℤ
pid _ = pos 7

abbrev lives : String → List Life
lives id = exits none ∷ wakes ∷ starts (no_socket "not ready") ∷ []

abbrev audit : ℕ → String → EventRow
audit n typ = record {
  request_id = "req_1";
  seq = n;
  typ = typ;
  payload = obj (field "type" (str typ) end);
}

abbrev audits : List EventRow
audits = audit 1 "provider_request" ∷ audit 2 "provider_request" ∷ audit 3 "provider_response" ∷ []

abbrev row : RequestRow
row = first_row "req_1" "" (pos 3)

abbrev parse : String → Option Json
parse _ = none

abbrev stamp : EventRow → ℤ
stamp _ = pos 0

abbrev digits_of : ℕ → String
digits_of _ = "1"

provider_audit_events-detail_example :
    provider_audit_events parse (detail digits digits_of pid stamp row audits none) ≡ (
      shown parse none (last_event "provider_request" audits),
      shown parse none (last_event "provider_response" audits),
    )
provider_audit_events-detail_example =
    provider_audit_events-detail parse digits digits_of pid stamp row audits none
      (refl, (refl, (refl, tt)))
