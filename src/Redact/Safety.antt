-- ===== src/Redact/Safety.antt =====
-- internal/redact/redact.go: what a redacted value still shows.
use providerapi.Prelude.{
  String, ◌≡◌, refl, ap, ◌↔◌, true, false, inl, inr, [], ◌∷◌, ◌==◌, eq_iff, Bool-cases,
  if◌then◌else◌,
}
use mathlib.Core.Option
use providerapi.Dict.{Dict, get}
use providerapi.Json.{Json, null, bool, num, str, arr, obj, Items, nil, cons, Fields, end, field}
use providerapi.Redact.{
  redacted, header_name, looks_secret, value, headers, redact_value, redact_items, redact_fields,
}

-- A text that is a field's value, and does not look like a secret.
abbrev pub PlainText : Json → Type 0
PlainText (str s) = looks_secret s ≡ false
PlainText _ = Unit

-- At every depth: under a sensitive key stands the mark, and under any other key no text that looks
-- like a secret. A text that is no field's value, as in an array, may be anything.
unfoldable mutual
  pub IsClean : Json → Type 0
  IsClean (arr vs) = ItemsAreClean vs
  IsClean (obj m) = FieldsAreClean m
  IsClean _ = Unit

  pub ItemsAreClean : Items → Type 0
  ItemsAreClean nil = Unit
  ItemsAreClean (cons v vs) = IsClean v × ItemsAreClean vs

  pub FieldsAreClean : Fields → Type 0
  FieldsAreClean end = Unit
  FieldsAreClean (field k v m) =
      (header_name k ≡ true → v ≡ str redacted)
      × (header_name k ≡ false → PlainText v)
      × IsClean v
      × FieldsAreClean m

pub redacted-plain : looks_secret redacted ≡ false
unfolding looks_secret
redacted-plain = refl

value-plain : (s : String) → looks_secret (value s) ≡ false
unfolding value
value-plain s = elim (Bool-cases (looks_secret s)) [
  | inl secret ↦ rw secret redacted-plain
  | inr plain ↦ rw plain plain
]

field_clean :
    (k : String) (v : Json) (m : Fields)
    → PlainText v
    → IsClean v
    → FieldsAreClean m
    → FieldsAreClean (field k (if header_name k then str redacted else v) m)
unfolding IsClean
field_clean k v m t h hs = elim (Bool-cases (header_name k)) [
  | inl hidden ↦ rw hidden (λ _. refl, λ _. redacted-plain, tt, hs)
  | inr shown ↦ rw shown (λ e. cc, λ _. t, h, hs)
]

mutual
  unfolding redact_value IsClean

  clean : (v : Json) → IsClean (redact_value v)
  clean (arr vs) = items_clean vs
  clean (obj m) = fields_clean m
  clean _ = tt

  items_clean : (vs : Items) → ItemsAreClean (redact_items vs)
  items_clean nil = tt
  items_clean (cons v vs) = (clean v, items_clean vs)

  fields_clean : (m : Fields) → FieldsAreClean (redact_fields m)
  fields_clean end = tt
  fields_clean (field k (str s) m) =
      field_clean k (str (value s)) (redact_fields m) (value-plain s) tt (fields_clean m)
  fields_clean (field k (arr vs) m) =
      field_clean k (arr (redact_items vs)) (redact_fields m) tt (items_clean vs) (fields_clean m)
  fields_clean (field k (obj n) m) =
      field_clean k (obj (redact_fields n)) (redact_fields m) tt (fields_clean n) (fields_clean m)
  fields_clean (field k null m) = field_clean k null (redact_fields m) tt tt (fields_clean m)
  fields_clean (field k (bool b) m) =
      field_clean k (bool b) (redact_fields m) tt tt (fields_clean m)
  fields_clean (field k (num n) m) = field_clean k (num n) (redact_fields m) tt tt (fields_clean m)

value-unchanged : (s : String) → looks_secret s ≡ false → value s ≡ s
unfolding value
value-unchanged s h = rw h

field_same :
    (k : String) (v w : Json) (m n : Fields)
    → (header_name k ≡ true → v ≡ str redacted)
    → (header_name k ≡ false → w ≡ v)
    → n ≡ m
    → field k (if header_name k then str redacted else w) n ≡ field k v m
field_same k v w m n hidden shown e = elim (Bool-cases (header_name k)) [
  | inl h ↦ rw (h, e, hidden h)
  | inr h ↦ rw (h, e, shown h)
]

mutual
  unfolding redact_value IsClean

  same : (v : Json) → IsClean v → redact_value v ≡ v
  same (arr vs) h = ap arr (items_same vs h)
  same (obj m) h = ap obj (fields_same m h)
  same _ h = refl

  items_same : (vs : Items) → ItemsAreClean vs → redact_items vs ≡ vs
  items_same nil h = refl
  items_same (cons v vs) (h, hs) = cc (same v h, items_same vs hs)

  fields_same : (m : Fields) → FieldsAreClean m → redact_fields m ≡ m
  fields_same end h = refl
  fields_same (field k (str s) m) (hidden, shown, _, hs) =
      field_same k (str s) (str (value s)) m (redact_fields m) hidden
        (λ e. ap str (value-unchanged s (shown e))) (fields_same m hs)
  fields_same (field k (arr vs) m) (hidden, shown, h, hs) =
      field_same k (arr vs) (arr (redact_items vs)) m (redact_fields m) hidden
        (λ _. ap arr (items_same vs h)) (fields_same m hs)
  fields_same (field k (obj n) m) (hidden, shown, h, hs) =
      field_same k (obj n) (obj (redact_fields n)) m (redact_fields m) hidden
        (λ _. ap obj (fields_same n h)) (fields_same m hs)
  fields_same (field k null m) (hidden, shown, h, hs) =
      field_same k null null m (redact_fields m) hidden (λ _. refl) (fields_same m hs)
  fields_same (field k (bool b) m) (hidden, shown, h, hs) =
      field_same k (bool b) (bool b) m (redact_fields m) hidden (λ _. refl) (fields_same m hs)
  fields_same (field k (num x) m) (hidden, shown, h, hs) =
      field_same k (num x) (num x) m (redact_fields m) hidden (λ _. refl) (fields_same m hs)

-- Whatever the value, redactValue makes it clean: at every depth of maps and arrays.
pub redact_value-IsClean : (v : Json) → IsClean (redact_value v)
redact_value-IsClean v = clean v

-- redactValue changes a value exactly when it is not clean.
redact_value-eq_iff : (v : Json) → (redact_value v ≡ v) ↔ IsClean v
redact_value-eq_iff v = (λ e. rw e at (clean v), same v)

-- Headers keeps the names, shows the mark for a sensitive name and for a value that looks like a
-- secret, and every other value as it is.
get-headers :
    (k : String) (h : Dict String)
    → get k (headers h) ≡ Option.map (λ v. if header_name k then redacted else value v) (get k h)
unfolding headers get
get-headers k [] = refl
get-headers k ((j, v) ∷ h) = elim (Bool-cases (j == k)) [
  | inl e ↦ rw (e, (eq_iff j k).0 e)
  | inr e ↦ rw (e, get-headers k h)
]

-- A second redaction changes nothing: a payload is redacted when it is taken, again when its event is stored, and
-- again when its file is written.
redact_value-twice : (v : Json) → redact_value (redact_value v) ≡ redact_value v
redact_value-twice v = (redact_value-eq_iff (redact_value v)).1 (clean v)
