-- ===== src/Trace/Store.antt =====
-- internal/store/store.go: the tables of requests and of their events. A statement of SQL is the change
-- that it makes to the tables; the database is taken to accept each statement.
pub mod Rows
pub mod Listing
pub mod Replay
pub mod Schema
use providerapi.Prelude.{
  ℕ, zero, suc, String, Bool, true, false, ◌&&◌, Option, none, some, List, [], ◌∷◌, ◌++◌, ltb, ◌==◌,
  any, take, if◌then◌else◌,
}
use providerapi.Prelude.Sort.{sort}
use providerapi.Prelude.Int.{ℤ, pos, negsuc}
use providerapi.Json.{Json}

pub record RequestRow : Type 0 where
  pub id : String
  pub client_request_id : String
  pub started_at : ℤ
  pub finished_at : ℤ
  pub client_model : String
  pub provider : String
  pub upstream_model : String
  pub reasoning : String
  pub status : String
  pub finish_reason : String
  pub http_status : ℕ
  pub input_tokens : ℤ
  pub output_tokens : ℤ
  pub ttft_ms : ℤ
  pub duration_ms : ℤ
  pub error_type : String
  pub error_code : String
  pub error_message : String
  pub plugin_id : String
  pub plugin_version : String

pub record EventRow : Type 0 where
  pub request_id : String
  pub seq : ℕ
  pub typ : String
  pub payload : Json

-- A row of the table `plugins`.
pub record PluginRow : Type 0 where
  pub instance_id : String
  pub plugin : String
  pub version : String
  pub protocol_version : String
  pub healthy : Bool
  pub last_seen : ℤ
  pub pid : ℤ

-- The tables `requests`, `request_events` and `plugins`, in the order of insertion.
pub record Store : Type 0 where
  pub requests : List RequestRow
  pub events : List EventRow
  pub plugins : List PluginRow

unfoldable pub empty_store : Store
empty_store = record { requests = []; events = []; plugins = [] }

-- ON CONFLICT(id): every column but `id` and `started_at` is written
unfoldable pub upsert_row : RequestRow → List RequestRow → List RequestRow
upsert_row r [] = r ∷ []
upsert_row r (old ∷ rows) =
    if old.id == r.id
    then record r { started_at = old.started_at } ∷ rows
    else old ∷ upsert_row r rows

-- UpsertRequest
unfoldable pub upsert_request : RequestRow → Store → Store
unfolding upsert_row
upsert_request r s = record s { requests = upsert_row r s.requests }

-- InsertEvent
unfoldable pub insert_event : String → ℕ → String → Json → Store → Store
insert_event request_id seq typ payload s = record s {
  events =
      s.events ++ record { request_id = request_id; seq = seq; typ = typ; payload = payload } ∷ [];
}

unfoldable pub find_row : String → List RequestRow → Option RequestRow
find_row id [] = none
find_row id (r ∷ rows) = if r.id == id then some r else find_row id rows

abbrev pub lt_int : ℤ → ℤ → Bool
lt_int (pos a) (pos b) = ltb a b
lt_int (pos a) (negsuc b) = false
lt_int (negsuc a) (pos b) = true
lt_int (negsuc a) (negsuc b) = ltb b a

-- the order of ListRequests: the newest first. Rows with one start stand in the order of the table.
abbrev pub newer : RequestRow → RequestRow → Bool
newer r x = lt_int x.started_at r.started_at

-- the limit of ListRequests
abbrev pub limit_of : ℤ → ℕ
limit_of (pos zero) = 50
limit_of (pos (suc n)) = suc n
limit_of (negsuc n) = 50

-- ListRequests
unfoldable pub list_requests : ℤ → Store → List RequestRow
unfolding sort
list_requests limit s = take (limit_of limit) (sort newer s.requests)

-- GetRequest; `none` is os.ErrNotExist
unfoldable pub get_request : String → Store → Option RequestRow
unfolding find_row
get_request id s = find_row id s.requests

-- the place of an event among those that are sorted by `seq`
unfoldable pub insert_by_seq : EventRow → List EventRow → List EventRow
insert_by_seq e [] = e ∷ []
insert_by_seq e (x ∷ xs) = if ltb x.seq e.seq then x ∷ insert_by_seq e xs else e ∷ x ∷ xs

unfoldable pub events_of : String → List EventRow → List EventRow
unfolding insert_by_seq
events_of id [] = []
events_of id (e ∷ es) =
    let rest = events_of id es in if e.request_id == id then insert_by_seq e rest else rest

-- ListEvents
unfoldable pub list_events : String → Store → List EventRow
unfolding events_of
list_events id s = events_of id s.events

unfoldable pub is_expired : ℤ → String → List RequestRow → Bool
is_expired cutoff id rows = any (λ r. (r.id == id) && lt_int r.started_at cutoff) rows

unfoldable pub live_events : ℤ → List RequestRow → List EventRow → List EventRow
unfolding is_expired
live_events cutoff rows [] = []
live_events cutoff rows (e ∷ es) =
    let rest = live_events cutoff rows es in
    if is_expired cutoff e.request_id rows then rest else e ∷ rest

unfoldable pub live_rows : ℤ → List RequestRow → List RequestRow
live_rows cutoff [] = []
live_rows cutoff (r ∷ rows) =
    let rest = live_rows cutoff rows in if lt_int r.started_at cutoff then rest else r ∷ rest

-- DeleteExpired
unfoldable pub delete_expired : ℤ → Store → Store
unfolding live_events live_rows
delete_expired cutoff s = record s {
  requests = live_rows cutoff s.requests;
  events = live_events cutoff s.requests s.events;
}

-- ON CONFLICT(instance_id): every other column is written
unfoldable pub upsert_plugin_row : PluginRow → List PluginRow → List PluginRow
upsert_plugin_row p [] = p ∷ []
upsert_plugin_row p (old ∷ rows) =
    if old.instance_id == p.instance_id then p ∷ rows else old ∷ upsert_plugin_row p rows

-- UpsertPlugin
unfoldable pub upsert_plugin : PluginRow → Store → Store
unfolding upsert_plugin_row
upsert_plugin p s = record s { plugins = upsert_plugin_row p s.plugins }

-- ListPlugins
abbrev pub list_plugins : Store → List PluginRow
list_plugins s = s.plugins
