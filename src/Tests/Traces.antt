-- ===== src/Tests/Traces.antt =====
-- A store with two requests, and a session that writes to it.
use providerapi.Prelude.{ℕ, String, ◌≡◌, refl, List, [], ◌∷◌}
use providerapi.Prelude.Int.{pos}
use providerapi.Json.{Json, str, obj, end, field}
use providerapi.Protocol.Types.{CompletionRequest}
use providerapi.Trace.Store.{RequestRow, Store, empty_store, find_row}
use providerapi.Trace.Store.Rows.{IsKeyed}
use providerapi.Trace.Store.{list_requests}
use providerapi.Trace.Store.Listing.{Newest, asked, list_requests-Newest}
use providerapi.Trace.Store.Replay.{Statement, upsert, log, expire, run, replay, view, view-run}
use providerapi.Trace.Session.{Session, Ending, start, first_row}
use providerapi.Trace.Session.Use.{Use, noted, answered, use_all}

abbrev row : RequestRow
row = first_row "req_1" "" (pos 10)

abbrev pub store : Store
store = record { requests = row ∷ first_row "req_2" "" (pos 30) ∷ []; events = []; plugins = [] }

pub store-IsKeyed : IsKeyed store.requests
unfolding find_row
store-IsKeyed = (refl, (refl, tt))

abbrev newer : RequestRow
newer = record row { started_at = pos 99; status = "ok" }

abbrev session : Session
session = record {
  store = store;
  level = "full";
  row = row;
  seq = 0;
  payload = (start "full" "req_1" "" (pos 10) empty_store []).payload;
  files = [];
}

abbrev note : Json
note = obj (field "token" (str "t") end)

abbrev pub ending : Ending
ending = record {
  http_status = 200;
  status = "ok";
  finish = "stop";
  in_tok = pos 1;
  out_tok = pos 2;
  err_type = "";
  err_code = "";
  err_msg = "";
}

abbrev pub size : Json → String
size _ = "3"

abbrev pub encode : CompletionRequest → Json
encode req = str req.model

abbrev pub digits_of : ℕ → String
digits_of _ = "1"

abbrev uses : List Use
uses = noted "stream_started" ∷ answered note ∷ []

abbrev traced : Session
traced = use_all size encode digits_of (λ url. url) uses session

list_requests-Newest_example : Newest (asked (pos 1)) store.requests (list_requests (pos 1) store)
list_requests-Newest_example = list_requests-Newest (pos 1) store

abbrev statements : List Statement
statements = log "req_1" 1 "note" note ∷ upsert newer ∷ expire (pos 20) ∷ []

view-run_example : view (run statements store) ≡ replay statements (view store)
view-run_example = view-run statements store store-IsKeyed
