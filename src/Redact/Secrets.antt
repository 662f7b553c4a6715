-- ===== src/Redact/Secrets.antt =====
-- internal/redact/redact.go: the secrets that no redacted value holds, by a list of words of its own.
use providerapi.Prelude.{
  String, ◌≡◌, ◌∙◌, Bool, ◌||◌, true, false, [], ◌∷◌, any, inl, inr, arith, Bool-cases,
}
use providerapi.Text.{codes, contains, replace_all, same_codes, to_lower}
use providerapi.Json.{Json, null, bool, num, str, arr, obj, Items, nil, cons, Fields, end, field}
use providerapi.Redact.{header_name, looks_secret, redacted, redact_value}
use providerapi.Redact.Safety.{
  IsClean, ItemsAreClean, FieldsAreClean, PlainText, redacted-plain, redact_value-IsClean,
}

-- Whether a key has one of these words in it, in any case, with '_' for '-' or not.
unfoldable pub names_secret : String → Bool
unfolding to_lower
names_secret k =
    any (λ w. contains (replace_all b'_' b'-' (to_lower k)) (codes w))
      ("authorization" ∷ "api-key" ∷ "apikey" ∷ "cookie" ∷ "token" ∷ "secret" ∷ "credential"
        ∷ "password" ∷ [])

-- Whether a text has one of these in it, in any case.
unfoldable pub tells_secret : String → Bool
unfolding to_lower
tells_secret s = any (λ w. contains (to_lower s) (codes w)) ("bearer " ∷ "sk-" ∷ "api_key" ∷ [])

-- A text that is a field's value tells no secret.
abbrev pub IsSilent : Json → Type 0
IsSilent (str s) = tells_secret s ≡ false
IsSilent _ = Unit

-- At every depth of maps and arrays a field whose key names a secret has the mark for its value, and no text that
-- is a field's value tells a secret. Nothing is said of a text in an array or at the top.
unfoldable mutual
  pub HidesSecrets : Json → Type 0
  HidesSecrets (arr vs) = ItemsHide vs
  HidesSecrets (obj m) = FieldsHide m
  HidesSecrets _ = Unit

  pub ItemsHide : Items → Type 0
  ItemsHide nil = Unit
  ItemsHide (cons v vs) = HidesSecrets v × ItemsHide vs

  pub FieldsHide : Fields → Type 0
  FieldsHide end = Unit
  FieldsHide (field k v m) =
      (names_secret k ≡ true → v ≡ str "[REDACTED]") × IsSilent v × HidesSecrets v × FieldsHide m

some_word :
    (a b c d e f g h p q r t u v w x y z m n : Bool)
    → (a || (b || (c || (d || (e || (f || (g || (h || false)))))))) ≡ true
    → (p
        || a
        || (q
            || b
            || (m
                || n
                || (r
                    || c
                    || (t
                        || d
                        || (u || e || (v || f || (w || g || (x || h || (y || z || false))))))))))
      ≡ true
some_word a b c d e f g h p q r t u v w x y z m n told = ground arith

names_secret-header_name : (k : String) → names_secret k ≡ true → header_name k ≡ true
unfolding names_secret header_name
names_secret-header_name k told =
    let low = replace_all b'_' b'-' (to_lower k) in
    let c : String → Bool = λ w. contains low (codes w) in
    let s : String → Bool = λ w. same_codes low (codes w) in
    some_word (c "authorization") (c "api-key") (c "apikey") (c "cookie") (c "token") (c "secret")
      (c "credential") (c "password") (s "authorization") (s "api-key") (s "apikey") (s "cookie")
      (s "token") (s "secret") (s "credential") (s "password") (s "x-api-key") (c "x-api-key")
      (s "api_key") (c "api_key") told

same_either_way : (a b c : Bool) → (a || (b || (c || false))) ≡ (a || b || c)
same_either_way a b c = ground arith

tells_secret-same : (s : String) → tells_secret s ≡ looks_secret s
unfolding tells_secret looks_secret
tells_secret-same s =
    let c : String → Bool = λ w. contains (to_lower s) (codes w) in
    same_either_way (c "bearer ") (c "sk-") (c "api_key")

marked : (v : Json) → v ≡ str redacted → IsSilent v
marked v e = rw e (tells_secret-same redacted ∙ redacted-plain)

plain : (v : Json) → PlainText v → IsSilent v
plain (str s) h = tells_secret-same s ∙ h
plain null h = tt
plain (bool b) h = tt
plain (num n) h = tt
plain (arr vs) h = tt
plain (obj m) h = tt

silent :
    (k : String) (v : Json)
    → (header_name k ≡ true → v ≡ str redacted)
    → (header_name k ≡ false → PlainText v)
    → IsSilent v
silent k v hidden shown = elim (Bool-cases (header_name k)) [
  | inl h ↦ marked v (hidden h)
  | inr h ↦ plain v (shown h)
]

mutual
  unfolding HidesSecrets IsClean

  hides : (v : Json) → IsClean v → HidesSecrets v
  hides (arr vs) h = items_hide vs h
  hides (obj m) h = fields_hide m h
  hides _ h = tt

  items_hide : (vs : Items) → ItemsAreClean vs → ItemsHide vs
  items_hide nil h = tt
  items_hide (cons v vs) (h, hs) = (hides v h, items_hide vs hs)

  fields_hide : (m : Fields) → FieldsAreClean m → FieldsHide m
  fields_hide end h = tt
  fields_hide (field k v m) (hidden, shown, h, hs) = (
    (λ e. hidden (names_secret-header_name k e)),
    silent k v hidden shown,
    hides v h,
    fields_hide m hs,
  )

-- Whatever the value, in what redactValue makes of it, at every depth of maps and arrays: a field whose key has
-- "authorization", "api-key", "apikey", "cookie", "token", "secret", "credential" or "password" in it, in any case
-- and with '_' for '-' or not, has the mark [REDACTED] for its value, and no text that is a field's value has
-- "bearer ", "sk-" or "api_key" in it, in any case. Nothing is said of a text in an array or at the top.
pub redact_value-HidesSecrets : (v : Json) → HidesSecrets (redact_value v)
redact_value-HidesSecrets v = hides (redact_value v) (redact_value-IsClean v)
