-- ===== src/Trace/Service/Alike.antt =====
-- internal/store/store.go and internal/trace/trace.go: which requests a run of statements, and a file that is
-- written, can be seen to change.
use providerapi.Prelude.{
  String, ◌≡◌, refl, sym, ap, ◌∙◌, false, Option, none, some, List, [], ◌∷◌, inl, inr, All,
  Bool-cases, ◌==◌, eq_iff,
}
use providerapi.Dict.{get, get-put, get-put_self}
use providerapi.Trace.Payload.{Payload, Files, write_full}
use providerapi.Trace.Store.{Store, get_request, list_events}
use providerapi.Trace.Store.Rows.{IsKeyed}
use providerapi.Trace.Store.Replay.{
  Statement, upsert, log, expire, run, execute, execute-IsKeyed, View, view, promise, replay,
  view-run,
}
use providerapi.Trace.Service.Writes.{Names, filed}

-- Two views show the same of a request.
record Alike (id : String) (v w : View) : Type 0 where
  row : v.row id ≡ w.row id
  events : v.events id ≡ w.events id

promise-Alike :
    (id : String) (q : Statement) (v w : View) → Alike id v w → Alike id (promise q v) (promise q w)
promise-Alike id (upsert r) v w h = elim (Bool-cases (r.id == id)) [
  | inl mine ↦
      let same = (eq_iff r.id id).0 mine in
      record { row = rw mine (rw same (rw h.row refl)); events = h.events }
  | inr other ↦ record { row = rw other h.row; events = h.events }
]
promise-Alike id (log j seq typ payload) v w h = record { row = h.row; events = rw h.events refl }
promise-Alike id (expire cutoff) v w h = record {
  row = rw h.row refl;
  events = rw (h.row, h.events) refl;
}

replay-Alike :
    (id : String) (qs : List Statement) (v w : View)
    → Alike id v w
    → Alike id (replay qs v) (replay qs w)
replay-Alike id [] v w h = h
replay-Alike id (q ∷ qs) v w h = replay-Alike id qs _ _ (promise-Alike id q v w h)

id_of : Option String → String
id_of none = ""
id_of (some j) = j

promise-other :
    (id j : String) (q : Statement) (v : View)
    → j == id ≡ false
    → Names j q
    → Alike id (promise q v) v
unfolding id_of
promise-other id j (upsert r) v other named =
    let same : r.id ≡ j = ap id_of named in record { row = rw (same, other) refl; events = refl }
promise-other id j (log k seq typ payload) v other named =
    let same : k ≡ j = ap id_of named in record { row = refl; events = rw (same, other) refl }
promise-other id j (expire cutoff) v other named = cc

replay-other :
    (id j : String) (qs : List Statement) (v : View)
    → j == id ≡ false
    → All (Names j) qs
    → Alike id (replay qs v) v
replay-other id j [] v other named = record { row = refl; events = refl }
replay-other id j (q ∷ qs) v other (named, rest) =
    let first = promise-other id j q v other named in
    let later = replay-other id j qs (promise q v) other rest in
    record { row = later.row ∙ first.row; events = later.events ∙ first.events }

pub run-IsKeyed :
    (qs : List Statement) (st : Store) → IsKeyed st.requests → IsKeyed (run qs st).requests
run-IsKeyed [] st keyed = keyed
run-IsKeyed (q ∷ qs) st keyed = run-IsKeyed qs (execute q st) (execute-IsKeyed q st keyed)

-- Two stores show the same of a request.
abbrev pub StoresAgree : String → Store → Store → Type 0
StoresAgree id st st' =
    (get_request id st ≡ get_request id st') × (list_events id st ≡ list_events id st')

pub run-other :
    (id j : String) (qs : List Statement) (st : Store)
    → j == id ≡ false
    → All (Names j) qs
    → IsKeyed st.requests
    → StoresAgree id (run qs st) st
run-other id j qs st other named keyed =
    let seen = view-run qs st keyed in
    let alike = replay-other id j qs (view st) other named in
    (
      ap (λ (v : View). v.row id) seen ∙ alike.row,
      ap (λ (v : View). v.events id) seen ∙ alike.events,
    )

pub run-StoresAgree :
    (id : String) (qs : List Statement) (st st' : Store)
    → IsKeyed st.requests
    → IsKeyed st'.requests
    → StoresAgree id st st'
    → StoresAgree id (run qs st) (run qs st')
run-StoresAgree id qs st st' keyed keyed' (row, events) =
    let seen = view-run qs st keyed in
    let seen' = view-run qs st' keyed' in
    let alike = replay-Alike id qs (view st) (view st') (record { row = row; events = events }) in
    (
      ap (λ (v : View). v.row id) seen ∙ alike.row ∙ sym (ap (λ (v : View). v.row id) seen'),
      ap (λ (v : View). v.events id) seen
          ∙ alike.events
          ∙ sym (ap (λ (v : View). v.events id) seen'),
    )

pub get-filed :
    (id j : String) (file : Option Payload) (files : Files)
    → j == id ≡ false
    → get id (filed j file files) ≡ get id files
unfolding write_full
get-filed id j none files other = refl
get-filed id j (some p) files other = get-put j id _ files ∙ rw other refl

pub get-filed_same :
    (id : String) (file : Option Payload) (files files' : Files)
    → get id files ≡ get id files'
    → get id (filed id file files) ≡ get id (filed id file files')
unfolding write_full
get-filed_same id none files files' h = h
get-filed_same id (some p) files files' h = get-put_self id _ files ∙ sym (get-put_self id _ files')
