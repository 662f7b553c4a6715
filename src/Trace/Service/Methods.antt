-- ===== src/Trace/Service/Methods.antt =====
-- internal/trace/trace.go: every method of a session writes for its own request only.
use providerapi.Prelude.{ℕ, String, refl, none, some, [], ◌∷◌, inl, inr, Bool-cases}
use providerapi.Prelude.Int.{ℤ}
use providerapi.Json.{Json}
use providerapi.Protocol.Types.{CompletionRequest}
use providerapi.Trace.Payload.{Payload, no_payload}
use providerapi.Trace.Store.{RequestRow, empty_store}
use providerapi.Trace.Store.Replay.{upsert}
use providerapi.Trace.Session.Audit.{provider_audit}
use providerapi.Trace.Session.{
  Session, Ending, is_off, is_full, is_zero, start, first_row, set_routing, client_raw, normalized,
  plugin_request, stream_meta, sse, client_response, mark_ttft, finish, final_row,
}
use providerapi.Trace.Session.Use.{
  Use, routed, got, understood, asked, audited, noted, streamed, answered, first_token, ended, use_,
}
use providerapi.Trace.Service.{beside, own}
use providerapi.Trace.Service.Writes.{Writes, silent-Writes, event-Writes, audited-Writes}

-- the session of Start
abbrev started : String → String → String → ℤ → Session
started level id client now = own (record {
  store = empty_store;
  level = level;
  row = first_row id client now;
  seq = 0;
  payload = no_payload;
  files = [];
})

finish-Writes :
    (now : ℤ) (e : Ending) (s : Session)
    → Writes s.row.id (λ st files. finish now e (beside st files s))
unfolding finish
finish-Writes now e s = elim (Bool-cases (is_off s.level)) [
  | inl off ↦ rw off (silent-Writes s (record s { row = final_row now e s.row }) refl)
  | inr on ↦ elim (Bool-cases (is_full s.level)) [
    | inl full ↦
        rw (on, full)
          (record {
            statements = upsert (final_row now e s.row) ∷ [];
            named = (refl, tt);
            file = some s.payload;
            left = record s { row = final_row now e s.row };
            left_id = refl;
            leaves = λ st files. refl;
          })
    | inr brief ↦
        rw (on, brief)
          (record {
            statements = upsert (final_row now e s.row) ∷ [];
            named = (refl, tt);
            file = none;
            left = record s { row = final_row now e s.row };
            left_id = refl;
            leaves = λ st files. refl;
          })
  ]
]

pub start-Writes :
    (level id client : String) (now : ℤ)
    → Writes id (λ st files. start level id client now st files)
unfolding start
start-Writes level id client now = elim (Bool-cases (is_off level)) [
  | inl off ↦ rw off (record {
    statements = [];
    named = tt;
    file = none;
    left = started level id client now;
    left_id = refl;
    leaves = λ st files. refl;
  })
  | inr on ↦ rw on (record {
    statements = upsert (first_row id client now) ∷ [];
    named = (refl, tt);
    file = none;
    left = started level id client now;
    left_id = refl;
    leaves = λ st files. refl;
  })
]

-- A session with another row and payload.
abbrev with_ : Session → RequestRow → Payload → Session
with_ s row payload = record s { row = row; payload = payload }

module _ (size : Json → String) (encode : CompletionRequest → Json) (decimal : ℕ → String)
    (strip_query : String → String) where
  pub use-Writes :
      (u : Use) (s : Session)
      → Writes s.row.id (λ st files. use_ size encode decimal strip_query u (beside st files s))
  unfolding set_routing client_raw normalized plugin_request provider_audit stream_meta sse
      client_response mark_ttft
  use-Writes (routed m p u l i v) s = event-Writes "routing" _ (with_ s _ _)
  use-Writes (got raw) s = elim (Bool-cases (is_full s.level)) [
    | inl e ↦ rw e (event-Writes "client_raw" _ (with_ s _ _))
    | inr e ↦ rw e (event-Writes "client_raw" _ (with_ s _ _))
  ]
  use-Writes (understood req) s = event-Writes "normalized" _ (with_ s _ _)
  use-Writes (asked req) s = event-Writes "plugin_request" _ (with_ s _ _)
  use-Writes (audited raw) s = audited-Writes _ _ _ _ s
  use-Writes (noted kind) s = elim (Bool-cases (is_full s.level)) [
    | inl e ↦ rw e (silent-Writes s s refl)
    | inr e ↦ rw e (event-Writes kind _ s)
  ]
  use-Writes (streamed chunk) s = elim (Bool-cases (is_full s.level)) [
    | inl e ↦ rw e (silent-Writes s (with_ s _ _) refl)
    | inr e ↦ rw e (silent-Writes s s refl)
  ]
  use-Writes (answered v) s = elim (Bool-cases (is_full s.level)) [
    | inl e ↦ rw e (event-Writes "client_response" _ (with_ s _ _))
    | inr e ↦ rw e (silent-Writes s (with_ s _ _) refl)
  ]
  use-Writes (first_token elapsed) s = elim (Bool-cases (is_zero s.row.ttft_ms)) [
    | inl e ↦ rw e (silent-Writes s (with_ s _ _) refl)
    | inr e ↦ rw e (silent-Writes s s refl)
  ]
  use-Writes (ended now e) s = finish-Writes now e s
