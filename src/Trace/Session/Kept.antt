-- ===== src/Trace/Session/Kept.antt =====
-- internal/trace/trace.go: what the methods of a session leave as it is, and what Finish stores.
use providerapi.Prelude.{
  ℕ, String, ◌≡◌, refl, ap, sym, Option, some, ◌∙◌, Bool, true, false, none, some, List, inl, inr,
  Bool-cases, ◌==◌,
}
use providerapi.Prelude.Int.{ℤ}
use providerapi.Json.{Json}
use providerapi.Redact.{RawJson, empty, malformed, json}
use providerapi.Protocol.Types.{CompletionRequest}
use providerapi.Trace.Store.{RequestRow, insert_event, find_row, get_request}
use providerapi.Trace.Store.Rows.{IsKeyed, stored, get_request-upsert_request}
use providerapi.Trace.Session.Audit.{provider_audit, keep_audit}
use providerapi.Trace.Session.Events.{get_request-finish}
use providerapi.Trace.Session.Use.{
  Use, routed, got, understood, asked, audited, noted, streamed, answered, first_token, ended, use_,
}
use providerapi.Trace.Session.{
  Session, Ending, is_off, is_full, is_zero, event, set_routing, client_raw, normalized,
  plugin_request, stream_meta, sse, client_response, mark_ttft, finish, final_row,
}

-- A predicate of the request's id, the level and the rows that are stored.
abbrev pub View : (String → String → List RequestRow → Type 0) → Session → Type 0
View P s = P s.row.id s.level s.store.requests

abbrev pub is_ended : Use → Bool
is_ended (ended now e) = true
is_ended _ = false

module _ (P : String → String → List RequestRow → Type 0) where
  event-View : (typ : String) (p : RawJson) (s : Session) → View P s → View P (event typ p s)
  unfolding event insert_event
  event-View typ empty s h = elim (Bool-cases (is_off s.level)) [ inl e ↦ rw e h | inr e ↦ rw e h ]
  event-View typ (malformed t) s h = elim (Bool-cases (is_off s.level)) [
    | inl e ↦ rw e h
    | inr e ↦ rw e h
  ]
  event-View typ (json v) s h = elim (Bool-cases (is_off s.level)) [
    | inl e ↦ rw e h
    | inr e ↦ rw e h
  ]

  keep_audit-View : (typ : String) (v : Json) (s : Session) → View P s → View P (keep_audit typ v s)
  unfolding keep_audit
  keep_audit-View typ v s h = elim (Bool-cases (typ == "provider_request")) [
    | inl e ↦ rw e h
    | inr e ↦ elim (Bool-cases (typ == "provider_response")) [
      | inl f ↦ rw (e, f) h
      | inr f ↦ rw (e, f) h
    ]
  ]

  module _ (size : Json → String) (encode : CompletionRequest → Json) (decimal : ℕ → String)
      (strip_query : String → String) where
    -- Every method but Finish keeps the id, the level and the stored rows.
    pub use-View :
        (u : Use) (s : Session)
        → is_ended u ≡ false
        → View P s
        → View P (use_ size encode decimal strip_query u s)
    unfolding set_routing client_raw normalized plugin_request provider_audit stream_meta sse
        client_response mark_ttft
    use-View (routed m p u l i v) s plain h = event-View "routing" _ _ h
    use-View (got raw) s plain h = elim (Bool-cases (is_full s.level)) [
      | inl e ↦ rw e (event-View "client_raw" _ _ h)
      | inr e ↦ rw e (event-View "client_raw" _ _ h)
    ]
    use-View (understood req) s plain h = event-View "normalized" _ _ h
    use-View (asked req) s plain h = event-View "plugin_request" _ _ h
    use-View (audited raw) s plain h = event-View _ _ _ (keep_audit-View _ _ s h)
    use-View (noted kind) s plain h = elim (Bool-cases (is_full s.level)) [
      | inl e ↦ rw e h
      | inr e ↦ rw e (event-View kind _ s h)
    ]
    use-View (streamed chunk) s plain h = elim (Bool-cases (is_full s.level)) [
      | inl e ↦ rw e h
      | inr e ↦ rw e h
    ]
    use-View (answered v) s plain h = elim (Bool-cases (is_full s.level)) [
      | inl e ↦ rw e (event-View "client_response" _ _ h)
      | inr e ↦ rw e h
    ]
    use-View (first_token elapsed) s plain h = elim (Bool-cases (is_zero s.row.ttft_ms)) [
      | inl e ↦ rw e h
      | inr e ↦ rw e h
    ]
    use-View (ended now e) s plain h = cc

-- The session of a request that is traced into a sound table.
pub record Traced (id row_id level : String) (rows : List RequestRow) : Type 0 where
  pub same_id : row_id ≡ id
  pub on : is_off level ≡ false
  pub keyed : IsKeyed rows

-- The stored row of the request, and what holds of it.
pub record Filed (id : String) (Q : RequestRow → Type 0) (row_id level : String)
    (rows : List RequestRow) : Type 0 where
  pub row : RequestRow
  pub found : find_row id rows ≡ some row
  pub holds : Q row

-- What Finish writes of an ending.
pub record Ended (now : ℤ) (e : Ending) (row : RequestRow) : Type 0 where
  pub at_end : row.finished_at ≡ now
  pub status : row.status ≡ e.status
  pub http : row.http_status ≡ e.http_status

stored-Ended :
    (now : ℤ) (e : Ending) (r : RequestRow) (old : Option RequestRow)
    → Ended now e (stored (final_row now e r) old)
stored-Ended now e r none = record { at_end = refl; status = refl; http = refl }
stored-Ended now e r (some old) = record { at_end = refl; status = refl; http = refl }

finish-Traced :
    (id : String) (now : ℤ) (e : Ending) (s : Session)
    → View (Traced id) s
    → View (Traced id) (finish now e s)
unfolding finish
finish-Traced id now e s h = rw (h.on) (record {
  same_id = h.same_id;
  on = h.on;
  keyed = (get_request-upsert_request s.row.id (final_row now e s.row) s.store h.keyed).0;
})

-- Finish stores the ending under the request's id, where its session is traced.
pub finish-Filed :
    (id : String) (now : ℤ) (e : Ending) (s : Session)
    → View (Traced id) s
    → View (Traced id) (finish now e s) × View (Filed id (Ended now e)) (finish now e s)
unfolding get_request
finish-Filed id now e s h = (
  finish-Traced id now e s h,
  record {
    row = stored (final_row now e s.row) (get_request s.row.id s.store);
    found =
        ap (λ i. find_row i (finish now e s).store.requests) (sym h.same_id)
        ∙ get_request-finish now e s h.on h.keyed;
    holds = stored-Ended now e s.row (get_request s.row.id s.store);
  },
)
