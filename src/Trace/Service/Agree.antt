-- ===== src/Trace/Service/Agree.antt =====
-- internal/trace/trace.go: services that show the same of a request still do when a method writes.
use providerapi.Prelude.{
  String, ◌≡◌, refl, sym, ap, ◌∙◌, Bool, true, false, Option, none, some, [], ◌∷◌, inl, inr, ◌==◌,
  ◌⊎◌, eq_iff, eq_refl, if◌then◌else◌,
}
use providerapi.Trace.Payload.{Files}
use providerapi.Trace.Store.{Store}
use providerapi.Trace.Store.Rows.{IsKeyed}
use providerapi.Trace.Store.Replay.{expire}
use providerapi.Trace.Retention.{sweep, get-live_files}
use providerapi.Prelude.Int.{ℤ, sub_int}
use providerapi.Trace.Session.{Session}
use providerapi.Trace.Service.{Service, after, own, swept, Seen, seen}
use providerapi.Trace.Service.Alike.{
  run-IsKeyed, run-other, run-StoresAgree, get-filed, get-filed_same,
}
use providerapi.Trace.Service.Writes.{Writes}

-- At most one row for a request in the store, and every session under the id of its request.
abbrev pub IsSound : Service → Type 0
IsSound v =
    IsKeyed v.store.requests × ((j : String) (s : Session) → v.sessions j ≡ some s → s.row.id ≡ j)

-- Two sound services that show the same of a request.
pub record Agree (id : String) (v w : Service) : Type 0 where
  pub left_IsSound : IsSound v
  pub right_IsSound : IsSound w
  pub level : v.level ≡ w.level
  pub keep : v.keep ≡ w.keep
  pub same : seen id v ≡ seen id w

some_of : Session → Option Session → Session
some_of d none = d
some_of d (some s) = s

if_some :
    (b : Bool) (x s : Session) (o : Option Session)
    → (if b then some x else o) ≡ some s
    → (b ≡ true) × (x ≡ s) ⊎ (o ≡ some s)
unfolding some_of
if_some true x s o e = inl (refl, ap (some_of s) e)
if_some false x s o e = inr e

-- The service behind a method that writes as `f` does.
abbrev pub behind : String → (Store → Files → Session) → Service → Service
behind id f v = after id (f v.store v.files) v

behind-IsSound :
    (id : String) (f : Store → Files → Session) (v : Service)
    → Writes id f
    → IsSound v
    → IsSound (behind id f v)
behind-IsSound id f v w (keyed, ids) = rw (w.leaves v.store v.files) (
  run-IsKeyed w.statements v.store keyed,
  λ j s e. elim (if_some (id == j) (own w.left) s (v.sessions j) e) [
    | inl (mine, same) ↦
        sym (ap (λ (x : Session). x.row.id) same) ∙ w.left_id ∙ (eq_iff id j).0 mine
    | inr old ↦ ids j s old
  ],
)

pub behind-other :
    (id j : String) (f : Store → Files → Session) (v v' : Service)
    → j == id ≡ false
    → Writes j f
    → Agree id v v'
    → Agree id (behind j f v) v'
behind-other id j f v v' other w h =
    let keyed = h.left_IsSound.0 in
    let (row, events) = run-other id j w.statements v.store other w.named keyed in
    record {
      left_IsSound = behind-IsSound j f v w h.left_IsSound;
      right_IsSound = h.right_IsSound;
      level = h.level;
      keep = h.keep;
      same =
          rw (w.leaves v.store v.files, other, row, events, get-filed id j w.file v.files other)
            h.same;
    }

pub behind-Agree :
    (id : String) (f : Store → Files → Session) (v v' : Service)
    → Writes id f
    → Agree id v v'
    → Agree id (behind id f v) (behind id f v')
behind-Agree id f v v' w h =
    let (row, events) =
      run-StoresAgree id w.statements v.store v'.store h.left_IsSound.0 h.right_IsSound.0
        (ap (λ (x : Seen). x.row) h.same, ap (λ (x : Seen). x.events) h.same) in
    record {
      left_IsSound = behind-IsSound id f v w h.left_IsSound;
      right_IsSound = behind-IsSound id f v' w h.right_IsSound;
      level = h.level;
      keep = h.keep;
      same =
          rw
            (
              w.leaves v.store v.files,
              w.leaves v'.store v'.files,
              eq_refl id,
              row,
              events,
              get-filed_same id w.file v.files v'.files (ap (λ (x : Seen). x.file) h.same),
            )
            refl;
    }

pub sweep-Agree :
    (id : String) (changed : String → ℤ) (now : ℤ) (v v' : Service)
    → Agree id v v'
    → Agree id (swept changed now v) (swept changed now v')
unfolding sweep
sweep-Agree id changed now v v' h =
    let qs = expire (sub_int now v'.keep.rows) ∷ [] in
    let (row, events) =
      run-StoresAgree id qs v.store v'.store h.left_IsSound.0 h.right_IsSound.0
        (ap (λ (x : Seen). x.row) h.same, ap (λ (x : Seen). x.events) h.same) in
    let file = ap (λ (x : Seen). x.file) h.same in
    record {
      left_IsSound = rw (h.keep) (run-IsKeyed qs v.store h.left_IsSound.0, h.left_IsSound.1);
      right_IsSound = (run-IsKeyed qs v'.store h.right_IsSound.0, h.right_IsSound.1);
      level = h.level;
      keep = h.keep;
      same =
          rw
            (
              h.keep,
              row,
              events,
              get-live_files changed (sub_int now v'.keep.full) id v.files,
              get-live_files changed (sub_int now v'.keep.full) id v'.files,
              file,
              ap (λ (x : Seen). x.session) h.same,
            )
            refl;
    }
