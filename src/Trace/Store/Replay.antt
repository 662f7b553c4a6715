-- ===== src/Trace/Store/Replay.antt =====
-- internal/store/store.go: what a table of requests and events is to those who query it, and that a run of
-- statements is the same run on that view.
use providerapi.Prelude.{
  ℕ, String, ◌≡◌, refl, ap, ◌∙◌, Option, none, some, List, [], ◌∷◌, ◌++◌, ltb, arith, ◌==◌, inl,
  inr, Bool-cases, if◌then◌else◌,
}
use mathlib.Core.Path.{fun_ext}
use providerapi.Prelude.Int.{ℤ}
use providerapi.Json.{Json}
use providerapi.Trace.Store.{
  RequestRow, EventRow, Store, upsert_request, insert_event, delete_expired, get_request,
  list_events, events_of, insert_by_seq, live_rows, lt_int,
}
use providerapi.Trace.Store.Rows.{
  IsKeyed, stored, is_old, get_request-upsert_request, get_request-delete_expired,
  missing-live_rows,
}

-- A store as its queries see it: the row and the events of every request.
pub record View : Type 0 where
  pub row : String → Option RequestRow
  pub events : String → List EventRow

abbrev pub view : Store → View
view s = record { row = λ id. get_request id s; events = λ id. list_events id s }

-- A statement that changes the tables of requests and events.
pub data Statement : Type 0 where
  upsert : RequestRow → Statement
  log : String → ℕ → String → Json → Statement
  expire : ℤ → Statement

abbrev pub execute : Statement → Store → Store
execute (upsert r) s = upsert_request r s
execute (log id seq typ payload) s = insert_event id seq typ payload s
execute (expire cutoff) s = delete_expired cutoff s

abbrev pub run : List Statement → Store → Store
run [] s = s
run (q ∷ qs) s = run qs (execute q s)

abbrev event_row : String → ℕ → String → Json → EventRow
event_row id seq typ payload = record { request_id = id; seq = seq; typ = typ; payload = payload }

-- the place of a new event: behind those whose number is not larger
abbrev pub add_event : EventRow → List EventRow → List EventRow
add_event e [] = e ∷ []
add_event e (x ∷ xs) = if ltb e.seq x.seq then e ∷ x ∷ xs else x ∷ add_event e xs

-- What a statement promises: it changes the one request that it names, and an expiry removes the requests
-- that are old with all their events.
abbrev pub promise : Statement → View → View
promise (upsert r) v = record v {
  row = λ id. if r.id == id then some (stored r (v.row r.id)) else v.row id;
}
promise (log j seq typ payload) v = record v {
  events =
      λ id. if j == id then add_event (event_row j seq typ payload) (v.events id) else v.events id;
}
promise (expire cutoff) v = record {
  row = λ id. if is_old cutoff (v.row id) then none else v.row id;
  events = λ id. if is_old cutoff (v.row id) then [] else v.events id;
}

abbrev pub replay : List Statement → View → View
replay [] v = v
replay (q ∷ qs) v = replay qs (promise q v)

same_view :
    {v w : View}
    → ((id : String) → v.row id ≡ w.row id)
    → ((id : String) → v.events id ≡ w.events id)
    → v ≡ w
same_view {v} {w} f g =
    ap (λ row. record v { row = row }) (fun_ext f)
    ∙ ap (λ events. record w { events = events }) (fun_ext g)

list_events-upsert_request :
    (id : String) (r : RequestRow) (s : Store)
    → list_events id (upsert_request r s) ≡ list_events id s
unfolding list_events upsert_request
list_events-upsert_request id r s = refl

get_request-insert_event :
    (id j : String) (seq : ℕ) (typ : String) (payload : Json) (s : Store)
    → get_request id (insert_event j seq typ payload s) ≡ get_request id s
unfolding get_request insert_event
get_request-insert_event id j seq typ payload s = refl

insert_by_seq-add_event :
    (x e : EventRow) (es : List EventRow)
    → insert_by_seq x (add_event e es) ≡ add_event e (insert_by_seq x es)
unfolding insert_by_seq
insert_by_seq-add_event x e [] = refl
insert_by_seq-add_event x e (y ∷ es) = ground (arith, insert_by_seq-add_event x e es)

events_of-add :
    (id : String) (e : EventRow) (es : List EventRow)
    → events_of id (es ++ e ∷ [])
      ≡ (if e.request_id == id then add_event e (events_of id es) else events_of id es)
unfolding events_of insert_by_seq
events_of-add id e [] = refl
events_of-add id e (x ∷ es) =
    ground (arith, events_of-add id e es, insert_by_seq-add_event x e (events_of id es))

live_rows-IsKeyed :
    (cutoff : ℤ) (rows : List RequestRow) → IsKeyed rows → IsKeyed (live_rows cutoff rows)
unfolding live_rows
live_rows-IsKeyed cutoff [] h = tt
live_rows-IsKeyed cutoff (r ∷ rows) (new, h) = elim (Bool-cases (lt_int r.started_at cutoff)) [
  | inl old ↦ rw old (live_rows-IsKeyed cutoff rows h)
  | inr young ↦ rw young (missing-live_rows cutoff r.id rows new, live_rows-IsKeyed cutoff rows h)
]

list_events-insert_event :
    (id j : String) (seq : ℕ) (typ : String) (payload : Json) (s : Store)
    → list_events id (insert_event j seq typ payload s) ≡ (
        if j == id
        then add_event (event_row j seq typ payload) (list_events id s)
        else list_events id s)
unfolding list_events insert_event
list_events-insert_event id j seq typ payload s =
    events_of-add id (event_row j seq typ payload) s.events

pub execute-IsKeyed :
    (q : Statement) (s : Store) → IsKeyed s.requests → IsKeyed (execute q s).requests
unfolding insert_event delete_expired
execute-IsKeyed (upsert r) s h = (get_request-upsert_request r.id r s h).0
execute-IsKeyed (log id seq typ payload) s h = h
execute-IsKeyed (expire cutoff) s h = live_rows-IsKeyed cutoff s.requests h

view-execute :
    (q : Statement) (s : Store) → IsKeyed s.requests → view (execute q s) ≡ promise q (view s)
view-execute (upsert r) s h =
    same_view (λ id. (get_request-upsert_request id r s h).1)
      (λ id. list_events-upsert_request id r s)
view-execute (log j seq typ payload) s h =
    same_view (λ id. get_request-insert_event id j seq typ payload s)
      (λ id. list_events-insert_event id j seq typ payload s)
view-execute (expire cutoff) s h =
    same_view (λ id. (get_request-delete_expired cutoff id s h).0)
      (λ id. (get_request-delete_expired cutoff id s h).1)

-- A store with at most one row for an id shows, behind any run of statements, what the same run of promises
-- makes of what it showed before.
pub view-run :
    (qs : List Statement) (s : Store) → IsKeyed s.requests → view (run qs s) ≡ replay qs (view s)
view-run [] s h = refl
view-run (q ∷ qs) s h =
    view-run qs (execute q s) (execute-IsKeyed q s h) ∙ ap (replay qs) (view-execute q s h)
