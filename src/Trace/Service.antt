-- ===== src/Trace/Service.antt =====
-- internal/trace/trace.go: the service whose sessions write to one store. A session is known by its request's
-- id, and a turn is one call of a method; the turns of the sessions come in any order.
pub mod Writes
pub mod Methods
pub mod Alike
pub mod Agree
pub mod Apart
use providerapi.Prelude.{
  ℕ, String, Bool, true, Option, none, some, List, [], ◌∷◌, ◌==◌, if◌then◌else◌,
}
use providerapi.Prelude.Int.{ℤ}
use providerapi.Json.{Json}
use providerapi.Dict.{get}
use providerapi.Protocol.Types.{CompletionRequest}
use providerapi.Trace.Payload.{Files}
use providerapi.Trace.Store.{RequestRow, EventRow, Store, empty_store, get_request, list_events}
use providerapi.Trace.Retention.{Retention, sweep}
use providerapi.Trace.Session.{Session, service_level, start}
use providerapi.Trace.Session.Use.{Use, use_}

-- The service, with the sessions that it started.
pub record Service : Type 0 where
  pub store : Store
  pub level : String
  pub keep : Retention
  pub files : Files
  pub sessions : String → Option Session

-- New
abbrev pub new_service : String → Retention → Store → Files → Service
new_service level keep st files = record {
  store = st;
  level = service_level level;
  keep = keep;
  files = files;
  sessions = λ _. none;
}

-- A session on the service's store and files.
abbrev pub beside : Store → Files → Session → Session
beside st files s = record s { store = st; files = files }

-- What is a session's own.
abbrev pub own : Session → Session
own s = beside empty_store [] s

-- The service behind a call of a session's method, or of Start.
abbrev pub after : String → Session → Service → Service
after id s v = record v {
  store = s.store;
  files = s.files;
  sessions = λ j. if id == j then some (own s) else v.sessions j;
}

-- Start with the ids of the request and the time, a method of the session of a request, or sweep at a time
-- with the files' times of change.
pub data Turn : Type 0 where
  starts : String → String → ℤ → Turn
  uses : String → Use → Turn
  sweeps : (String → ℤ) → ℤ → Turn

abbrev pub swept : (String → ℤ) → ℤ → Service → Service
swept changed now v =
    let (st, files) = sweep changed v.keep now v.store v.files in
    record v { store = st; files = files }

module _ (size : Json → String) (encode : CompletionRequest → Json) (decimal : ℕ → String)
    (strip_query : String → String) where
  unfoldable pub turn : Turn → Service → Service
  unfolding start sweep
  turn (starts id client now) v = after id (start v.level id client now v.store v.files) v
  turn (uses id u) v = elim (v.sessions id) [
    | none ↦ v
    | some s ↦ after id (use_ size encode decimal strip_query u (beside v.store v.files s)) v
  ]
  turn (sweeps changed now) v = swept changed now v

  abbrev pub run_turns : List Turn → Service → Service
  run_turns [] v = v
  run_turns (t ∷ ts) v = run_turns ts (turn t v)

-- Whether a turn is for a request: its own, or a sweep.
abbrev pub is_for : String → Turn → Bool
is_for id (starts j client now) = j == id
is_for id (uses j u) = j == id
is_for id (sweeps changed now) = true

abbrev pub turns_of : String → List Turn → List Turn
turns_of id [] = []
turns_of id (t ∷ ts) = let rest = turns_of id ts in if is_for id t then t ∷ rest else rest

-- What the administrator sees of a request, and its session.
pub record Seen : Type 0 where
  pub row : Option RequestRow
  pub events : List EventRow
  pub file : Option (Option Json)
  pub session : Option Session

abbrev pub seen : String → Service → Seen
seen id v = record {
  row = get_request id v.store;
  events = list_events id v.store;
  file = get id v.files;
  session = v.sessions id;
}
