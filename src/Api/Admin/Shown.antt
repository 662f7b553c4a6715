-- ===== src/Api/Admin/Shown.antt =====
-- internal/api/admin.go: what is shown without the token.
use Prim.Native.Char.{code}
use providerapi.Prelude.{
  ℕ, String, ◌≡◌, ◌≢◌, ◌⊎◌, inl, inr, refl, ap, Bool, true, false, Option, List, [], ◌∷◌, ◌++◌, sym,
  ◌∙◌, Bool-cases, eqb, eqb→eq, eq_iff, if◌then◌else◌,
}
use providerapi.Text.{codes, is_empty, after_prefix, trim_prefix}
use providerapi.Prelude.Int.{ℤ}
use providerapi.Plugin.Instance.{Instance}
use providerapi.Trace.Store.{EventRow}
use providerapi.Api.Admin.Routes.{Served, own, unauthorized, auth, State, ApiRoute, api, routes}

-- What strings.TrimPrefix leaves is the whole text, or what stands behind the prefix.
after_prefix-cases :
    (whole : String) (t : List ℕ) (s : String)
    → (after_prefix whole t s ≡ whole) ⊎ (codes s ≡ t ++ codes (after_prefix whole t s))
after_prefix-cases whole [] s = inr refl
after_prefix-cases whole (b ∷ t) String.[] = inl refl
after_prefix-cases whole (b ∷ t) (String.◌∷◌ c s) = elim (Bool-cases (eqb (code c) b)) [
  | inl e ↦ rw e (elim (after_prefix-cases whole t s) [
    | inl kept ↦ inl kept
    | inr cut ↦ inr (cc (eqb→eq (code c) b e, cut))
  ])
  | inr e ↦ rw e (inl refl)
]

-- The requests that hold the token: in X-Admin-Token, or, where that is empty or missing, in Authorization,
-- alone or behind "Bearer ".
abbrev pub Holds : String → String → String → Type 0
Holds token header authorization =
    (header ≡ token)
    ⊎ ((header ≡ "")
        × ((authorization ≡ token) ⊎ (codes authorization ≡ codes "Bearer " ++ codes token)))

auth-Holds :
    (token header authorization : String)
    → is_empty token ≡ false
    → auth token header authorization ≡ true
    → Holds token header authorization
unfolding auth
auth-Holds token String.[] authorization set let_in =
    let e : trim_prefix authorization "Bearer " ≡ token = (eq_iff _ token).0 (rw set at let_in) in
    inr (
      refl,
      elim (after_prefix-cases authorization (codes "Bearer ") authorization) [
        | inl kept ↦ inl (sym kept ∙ e)
        | inr cut ↦ inr (cut ∙ ap (λ s. codes "Bearer " ++ codes s) e)
      ],
    )
auth-Holds token (String.◌∷◌ c s) authorization set let_in =
    inl ((eq_iff _ token).0 (rw set at let_in))

shut : (b : Bool) (x : Served) → b ≢ true → (if b then x else own unauthorized) ≡ own unauthorized
shut true x denied = absurd (denied refl)
shut false x denied = refl

module _ (decimal : ℤ → String) (digits : ℕ → String) (pid : Instance → ℤ)
    (stamp : EventRow → ℤ) where
  -- Where a token is set, a request that does not hold it in X-Admin-Token, nor, with that header empty or
  -- missing, in Authorization, alone or behind "Bearer ", is answered with 401 by every route but the console's.
  pub routes-unauthorized :
      (exists : String → Bool) (header authorization : String) (db_error : Option String)
      (s : State) (route : ApiRoute)
      → is_empty s.cfg.admin.token ≡ false
      → ¬ Holds s.cfg.admin.token header authorization
      → routes decimal digits pid stamp exists header authorization db_error s (api route)
        ≡ own unauthorized
  unfolding routes
  routes-unauthorized exists header authorization db_error s route set lacks =
      shut (auth s.cfg.admin.token header authorization) _
        (λ e. lacks (auth-Holds s.cfg.admin.token header authorization set e))
