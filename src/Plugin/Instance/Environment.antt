-- ===== src/Plugin/Instance/Environment.antt =====
-- internal/plugin/runtime.go: which credentials a plugin's process sees.
use Prim.Native.Char.{code}
use Prim.Native.String.append
use providerapi.Prelude.{
  ℕ, String, ◌≡◌, refl, ap, ◌∙◌, Bool, true, false, List, [], ◌∷◌, ◌++◌, ◌||◌, eqb_refl, arith,
  if◌then◌else◌,
}
use mathlib.Core.List.{append-nil}
use providerapi.Text.{codes, has_prefix, is_empty, ◌<>◌}
use providerapi.Config.{Credential}
use providerapi.Plugin.Instance.{credential_prefix, is_credential, scrub, plugin_env}

-- An entry of the variable in which a plugin is given its credential.
unfoldable pub sets_credential : String → Bool
sets_credential e = has_prefix (codes e) (codes "PROVIDERAPI_CREDENTIAL=")

-- The entries of that variable, or those of every other one.
abbrev pub select : Bool → List String → List String
select wanted [] = []
select true (e ∷ env) = if sets_credential e then e ∷ select true env else select true env
select false (e ∷ env) = if sets_credential e then select false env else e ∷ select false env

is_credential-same : (e : String) → is_credential e ≡ sets_credential e
unfolding is_credential sets_credential
is_credential-same e = refl

select-true-scrub : (env : List String) → select true (scrub env) ≡ []
unfolding scrub
select-true-scrub [] = refl
select-true-scrub (e ∷ env) = ground (arith, is_credential-same e, select-true-scrub env)

select-false-scrub : (env : List String) → select false (scrub env) ≡ select false env
unfolding scrub
select-false-scrub [] = refl
select-false-scrub (e ∷ env) = ground (arith, is_credential-same e, select-false-scrub env)

select-append :
    (wanted : Bool) (xs ys : List String)
    → select wanted (xs ++ ys) ≡ select wanted xs ++ select wanted ys
select-append true [] ys = refl
select-append false [] ys = refl
select-append true (e ∷ xs) ys = ground (arith, select-append true xs ys)
select-append false (e ∷ xs) ys = ground (arith, select-append false xs ys)

codes-append : (s t : String) → codes (s <> t) ≡ codes s ++ codes t
codes-append String.[] t = ap codes (append.nil t)
codes-append (String.◌∷◌ c s) t =
    ap codes (append.cons c s t) ∙ ap (λ l. code c ∷ l) (codes-append s t)

has_prefix-append : (xs ys : List ℕ) → has_prefix (xs ++ ys) xs ≡ true
has_prefix-append [] ys = refl
has_prefix-append (x ∷ xs) ys = rw (eqb_refl x, has_prefix-append xs ys) refl

sets_credential-append : (s : String) → sets_credential (credential_prefix <> s) ≡ true
unfolding sets_credential
sets_credential-append s =
    rw (codes-append credential_prefix s) (has_prefix-append (codes credential_prefix) (codes s))

select-env :
    (unnamed unset : Bool) (xs : List String) (last : String)
    → sets_credential last ≡ true
    → let env = if unnamed then scrub xs else if unset then scrub xs else scrub xs ++ last ∷ [] in
      (select true env ≡ (if unnamed || unset then [] else last ∷ []))
      × (select false env ≡ select false xs)
select-env true unset xs last h = (select-true-scrub xs, select-false-scrub xs)
select-env false true xs last h = (select-true-scrub xs, select-false-scrub xs)
select-env false false xs last h = (
  rw (select-append true (scrub xs) (last ∷ []), select-true-scrub xs, h) refl,
  rw (select-append false (scrub xs) (last ∷ []), select-false-scrub xs, h) (append-nil _),
)

-- A plugin's process finds in PROVIDERAPI_CREDENTIAL the value of its own credential's variable, once, where that
-- is set, and otherwise nothing, whatever the host has there; every entry of another variable it gets as the
-- host has it, those from which credentials are read among them.
pub select-plugin_env :
    (environ : List String) (getenv : String → String) (cred : Credential)
    → (select true (plugin_env environ getenv cred) ≡ (
        if is_empty cred.env || is_empty (getenv cred.env)
        then []
        else ("PROVIDERAPI_CREDENTIAL=" <> getenv cred.env) ∷ []))
      × (select false (plugin_env environ getenv cred) ≡ select false environ)
unfolding plugin_env
select-plugin_env environ getenv cred =
    select-env (is_empty cred.env) (is_empty (getenv cred.env)) environ
      (credential_prefix <> getenv cred.env) (sets_credential-append (getenv cred.env))
