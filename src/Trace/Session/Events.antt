-- ===== src/Trace/Session/Events.antt =====
-- internal/trace/trace.go and internal/store/store.go: the events that a session leaves in the store, and
-- the row that it ends with.
use providerapi.Prelude.{
  ℕ, suc, ◌≤◌, ◌<◌, String, ◌≡◌, refl, ◌∙◌, inl, inr, false, some, List, [], ◌∷◌, ◌++◌, arith, ◌==◌,
  eq_iff, eq_refl, All, All-append, Bool-cases,
}
use providerapi.Prelude.Int.{ℤ}
use providerapi.Json.{Json}
use providerapi.Redact.{json, redact_value}
use providerapi.Trace.Store.{
  EventRow, insert_event, insert_by_seq, events_of, list_events, get_request,
}
use providerapi.Trace.Store.Rows.{stored, IsKeyed, get_request-upsert_request}
use providerapi.Trace.Session.{Session, is_off, event, Ending, final_row, finish}

abbrev Below : String → ℕ → EventRow → Type 0
Below id n e = (e.request_id ≡ id) → e.seq ≤ n

-- The session's events in the store have numbers up to the session's own.
abbrev pub IsCounted : Session → Type 0
IsCounted s = All (Below s.row.id s.seq) s.store.events

abbrev pub new_event : String → Json → Session → EventRow
new_event typ v s = record {
  request_id = s.row.id;
  seq = suc s.seq;
  typ = typ;
  payload = redact_value v;
}

insert_by_seq-append :
    (x e : EventRow) (es : List EventRow)
    → x.seq < e.seq
    → insert_by_seq x (es ++ e ∷ []) ≡ insert_by_seq x es ++ e ∷ []
unfolding insert_by_seq
insert_by_seq-append x e [] h = ground arith
insert_by_seq-append x e (y ∷ es) h = ground (arith, insert_by_seq-append x e es h)

events_of-append :
    (id : String) (n : ℕ) (e : EventRow) (es : List EventRow)
    → e.request_id ≡ id
    → n < e.seq
    → All (Below id n) es
    → events_of id (es ++ e ∷ []) ≡ events_of id es ++ e ∷ []
unfolding events_of insert_by_seq
events_of-append id n e [] own new h = ground (arith, eq_iff e.request_id id)
events_of-append id n e (x ∷ es) own new (b, h) = elim (Bool-cases (x.request_id == id)) [
  | inl mine ↦
      let first : x.seq < e.seq = omega (arith, b ((eq_iff x.request_id id).0 mine)) in
      rw (mine, events_of-append id n e es own new h)
        (insert_by_seq-append x e (events_of id es) first)
  | inr other ↦ rw (other, events_of-append id n e es own new h) refl
]

Below-suc :
    (id : String) (n : ℕ) (es : List EventRow) → All (Below id n) es → All (Below id (suc n)) es
Below-suc id n [] h = tt
Below-suc id n (x ∷ es) (b, h) = (λ own. omega (arith, b own), Below-suc id n es h)

-- Where traces are on, an event with a JSON payload is listed for the request behind all events of the
-- request so far, with the next number and its payload redacted; and the numbers of the request's events stay up to the session's own.
list_events-event :
    (typ : String) (v : Json) (s : Session)
    → is_off s.level ≡ false
    → IsCounted s
    → (list_events s.row.id (event typ (json v) s).store
        ≡ list_events s.row.id s.store ++ new_event typ v s ∷ [])
      × IsCounted (event typ (json v) s)
unfolding event list_events insert_event
list_events-event typ v s on counted = rw on (
  events_of-append s.row.id s.seq (new_event typ v s) s.store.events refl (omega arith) counted,
  All-append (Below s.row.id (suc s.seq)) s.store.events (new_event typ v s ∷ [])
      (Below-suc s.row.id s.seq s.store.events counted) (λ _. omega arith, tt),
)

-- Where traces are on, GetRequest finds behind Finish the row with the given ending, under the start that
-- was stored first.
pub get_request-finish :
    (now : ℤ) (e : Ending) (s : Session)
    → is_off s.level ≡ false
    → IsKeyed s.store.requests
    → get_request s.row.id (finish now e s).store
      ≡ some (stored (final_row now e s.row) (get_request s.row.id s.store))
unfolding finish
get_request-finish now e s on keyed =
    let (_, found) = get_request-upsert_request s.row.id (final_row now e s.row) s.store keyed in
    rw on (found ∙ rw (eq_refl s.row.id) refl)
