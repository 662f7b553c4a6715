-- ===== src/Config/Consistency.antt =====
-- internal/config/config.go: what `validate` accepts, in whatever order the maps are visited.
use providerapi.Prelude.{
  String, ◌≡◌, refl, ◌⊎◌, inl, inr, ◌↔◌, true, false, some, [], ◌∷◌, arith, All, ◌==◌, Option-cases,
  Bool-cases,
}
use providerapi.Text.{is_empty}
use providerapi.Dict.{Dict, get, has}
use providerapi.Config.{
  Config, ModelAlias, ProviderInstance, PluginBinary, Credential, Checked, valid, level_ok,
  check_model, check_provider, check_all, validate,
}

-- A model's provider is there; a provider's plugin is there, and its credential, if it names one.
abbrev pub ModelOk : Dict ProviderInstance → ModelAlias → Type 0
ModelOk providers alias = (is_empty alias.provider ≡ false) × (has alias.provider providers ≡ true)

abbrev pub ProviderOk : Dict PluginBinary → Dict Credential → ProviderInstance → Type 0
ProviderOk plugins credentials inst =
    (is_empty inst.plugin ≡ false)
    × (has inst.plugin plugins ≡ true)
    × ((is_empty inst.credential ≡ true) ⊎ (has inst.credential credentials ≡ true))

pub record IsConsistent (c : Config) : Type 0 where
  pub level : level_ok c.debug.level ≡ true
  pub models : All (λ e. ModelOk c.providers e.1) c.models
  pub providers : All (λ e. ProviderOk c.plugins c.credentials e.1) c.providers

check_all_iff :
    {V : Type 0} (check : String → V → Checked (Unit {0})) (P : V → Type 0)
    (fits : (k : String) (v : V) → (check k v ≡ valid tt) ↔ P v) (m : Dict V)
    → (check_all check m ≡ valid tt) ↔ All (λ e. P e.1) m
unfolding check_all
check_all_iff check P fits [] = (λ _. tt, λ _. refl)
check_all_iff check P fits ((k, v) ∷ m) = ground (arith, fits k v, check_all_iff check P fits m)

check_model_iff :
    (providers : Dict ProviderInstance) (name : String) (alias : ModelAlias)
    → (check_model providers name alias ≡ valid tt) ↔ ModelOk providers alias
unfolding check_model
check_model_iff providers name alias = ground arith

check_provider_iff :
    (plugins : Dict PluginBinary) (credentials : Dict Credential) (name : String)
    (inst : ProviderInstance)
    → (check_provider plugins credentials name inst ≡ valid tt)
      ↔ ProviderOk plugins credentials inst
unfolding check_provider
check_provider_iff plugins credentials name inst = ground arith

-- `validate` accepts a configuration exactly when its level is known and every name that it refers to
-- is there.
pub validate_iff : (c : Config) → (validate c ≡ valid tt) ↔ IsConsistent c
unfolding validate
validate_iff c =
    let models =
      check_all_iff (check_model c.providers) (ModelOk c.providers) (check_model_iff c.providers)
        c.models in
    let providers =
      check_all_iff (check_provider c.plugins c.credentials) (ProviderOk c.plugins c.credentials)
        (check_provider_iff c.plugins c.credentials) c.providers in
    (
      λ e. record {
        level = ground arith;
        models = models.0 (ground arith);
        providers = providers.0 (ground arith);
      },
      λ h. rw (h.level, models.1 h.models, providers.1 h.providers),
    )

All-get :
    {V : Type 0} (P : V → Type 0) (k : String) (m : Dict V) {v : V}
    → All (λ e. P e.1) m
    → get k m ≡ some v
    → P v
unfolding get
All-get P k [] h e = cc
All-get P k ((j, w) ∷ m) {v} (p, h) e = elim (Bool-cases (j == k)) [
  | inl same ↦ let eq : w ≡ v = ground arith in rw (← eq) p
  | inr other ↦ All-get P k m h (ground arith)
]

pub is_some-get :
    {V : Type 0} (k : String) (m : Dict V) → has k m ≡ true → (v : V) × (get k m ≡ some v)
is_some-get k m h = elim (Option-cases (get k m)) [ inl missing ↦ ground arith | inr there ↦ there ]

pub record Refers (c : Config) (alias : ModelAlias) : Type 0 where
  pub inst : ProviderInstance
  pub bin : PluginBinary
  pub provider_there : get alias.provider c.providers ≡ some inst
  pub plugin_there : get inst.plugin c.plugins ≡ some bin

-- In a configuration that `validate` accepts each alias leads to a provider, and that to a plugin.
pub validate-Refers :
    (c : Config) (name : String) (alias : ModelAlias)
    → validate c ≡ valid tt
    → get name c.models ≡ some alias
    → Refers c alias
validate-Refers c name alias v e =
    let h = (validate_iff c).0 v in
    let (_, known) = All-get (ModelOk c.providers) name c.models h.models e in
    let (inst, found) = is_some-get alias.provider c.providers known in
    let (_, there, _) =
      All-get (ProviderOk c.plugins c.credentials) alias.provider c.providers h.providers found in
    let (bin, placed) = is_some-get inst.plugin c.plugins there in
    record { inst = inst; bin = bin; provider_there = found; plugin_there = placed }
