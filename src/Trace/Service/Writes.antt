-- ===== src/Trace/Service/Writes.antt =====
-- internal/trace/trace.go: what a method of a session does to the service's store and files, whatever is
-- in them: statements for the session's own request, and perhaps the file of its trace.
use mathlib.Core.Path.{subst}
use providerapi.Prelude.{
  suc, String, ◌≡◌, refl, ap, ◌∙◌, Option, none, some, List, [], ◌∷◌, inl, inr, All, Bool-cases,
  ◌==◌,
}
use providerapi.Json.{Json}
use providerapi.Redact.{RawJson, empty, malformed, json, redact_value}
use providerapi.Trace.Payload.{Payload, Files, write_full}
use providerapi.Trace.Store.{Store, RequestRow, insert_event}
use providerapi.Trace.Store.Replay.{Statement, upsert, log, expire, run}
use providerapi.Trace.Session.Audit.{keep_audit}
use providerapi.Trace.Session.{Session, is_off, event}
use providerapi.Trace.Service.{beside}

-- The request that a statement is for; an expiry is for none.
abbrev pub statement_id : Statement → Option String
statement_id (upsert r) = some r.id
statement_id (log id seq typ payload) = some id
statement_id (expire cutoff) = none

abbrev pub Names : String → Statement → Type 0
Names id q = statement_id q ≡ some id

abbrev pub filed : String → Option Payload → Files → Files
filed id none files = files
filed id (some p) files = write_full id p files

pub record Writes (id : String) (f : Store → Files → Session) : Type 0 where
  pub statements : List Statement
  pub named : All (Names id) statements
  pub file : Option Payload
  pub left : Session
  pub left_id : left.row.id ≡ id
  pub leaves :
      (st : Store) (files : Files)
      → f st files ≡ beside (run statements st) (filed id file files) left

pub silent-Writes :
    (s t : Session) → t.row.id ≡ s.row.id → Writes s.row.id (λ st files. beside st files t)
silent-Writes s t same = record {
  statements = [];
  named = tt;
  file = none;
  left = t;
  left_id = same;
  leaves = λ st files. refl;
}

pub event-Writes :
    (typ : String) (p : RawJson) (s : Session)
    → Writes s.row.id (λ st files. event typ p (beside st files s))
unfolding event insert_event
event-Writes typ p s = elim (Bool-cases (is_off s.level)) [
  | inl off ↦ rw off (silent-Writes s s refl)
  | inr on ↦
      rw on
        (elim p
          as (λ p. Writes s.row.id (λ st files. elim p [
            | json v ↦ record (beside st files s) {
              seq = suc s.seq;
              store = insert_event s.row.id (suc s.seq) typ (redact_value v) st;
            }
            | _ ↦ record (beside st files s) { seq = suc s.seq }
          ])) [
            | empty ↦ silent-Writes s (record s { seq = suc s.seq }) refl
            | malformed t ↦ silent-Writes s (record s { seq = suc s.seq }) refl
            | json v ↦ record {
              statements = log s.row.id (suc s.seq) typ (redact_value v) ∷ [];
              named = (refl, tt);
              file = none;
              left = record s { seq = suc s.seq };
              left_id = refl;
              leaves = λ st files. refl;
            }
          ])
]

keep_audit-row : (typ : String) (v : Json) (s : Session) → (keep_audit typ v s).row ≡ s.row
unfolding keep_audit
keep_audit-row typ v s = elim (Bool-cases (typ == "provider_request")) [
  | inl e ↦ rw e refl
  | inr e ↦ elim (Bool-cases (typ == "provider_response")) [
    | inl f ↦ rw (e, f) refl
    | inr f ↦ rw (e, f) refl
  ]
]

keep_audit-beside :
    (typ : String) (v : Json) (st : Store) (files : Files) (s : Session)
    → keep_audit typ v (beside st files s) ≡ beside st files (keep_audit typ v s)
unfolding keep_audit
keep_audit-beside typ v st files s = elim (Bool-cases (typ == "provider_request")) [
  | inl e ↦ rw e refl
  | inr e ↦ elim (Bool-cases (typ == "provider_response")) [
    | inl f ↦ rw (e, f) refl
    | inr f ↦ rw (e, f) refl
  ]
]

pub audited-Writes :
    (named typ : String) (p : RawJson) (v : Json) (s : Session)
    → Writes s.row.id (λ st files. event named p (keep_audit typ v (beside st files s)))
audited-Writes named typ p v s =
    let w = event-Writes named p (keep_audit typ v s) in
    let same = ap (λ (r : RequestRow). r.id) (keep_audit-row typ v s) in
    record {
      statements = w.statements;
      named = subst (λ id. All (Names id) w.statements) same w.named;
      file = w.file;
      left = w.left;
      left_id = w.left_id ∙ same;
      leaves = λ st files.
          ap (event named p) (keep_audit-beside typ v st files s)
          ∙ w.leaves st files
          ∙ ap (λ id. beside (run w.statements st) (filed id w.file files) w.left) same;
    }
