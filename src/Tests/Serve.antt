-- ===== src/Tests/Serve.antt =====
-- A notification behind a request whose goroutine runs later.
use providerapi.Prelude.{◌≡◌, true, none, List, [], ◌∷◌, ◌++◌}
use providerapi.JsonRpc.{Request, absent, number, new_conn}
use providerapi.JsonRpc.Serve.{Turn, arrives, runs, fails, serve}
use providerapi.JsonRpc.Order.Notes.{notes}
use providerapi.JsonRpc.Order.{serve-notified}

abbrev asked : Request
asked = record {
  id = number 7;
  method = "plugin.health";
  params = none;
  result = none;
  error = none;
}

abbrev told : Request
told = record {
  id = absent;
  method = "plugin.stream.event";
  params = none;
  result = none;
  error = none;
}

abbrev turns : List Turn
turns = arrives asked ∷ arrives told ∷ runs 0 ∷ fails "EOF" ∷ arrives told ∷ []

serve-notified_example :
    (serve none true turns (record { conn = new_conn; spawned = []; result = none })).conn.notified
    ≡ new_conn.notified ++ notes turns
serve-notified_example = serve-notified none turns new_conn
