-- ===== src/Config/Defaults.antt =====
-- internal/config/config.go: what applyDefaults leaves, and what Load returns.
use providerapi.Prelude.{ℕ, String, ◌≡◌, refl, ◌⊎◌, inl, inr, arith}
use providerapi.Config.Consistency.{IsConsistent, validate_iff}
use providerapi.Config.{
  Checked, ConfigError, valid, invalid, validate, expand_paths, load, System, Config, text_or,
  port_or, apply_defaults,
}

text_or_idem : (s d : String) → text_or (text_or s d) d ≡ text_or s d
text_or_idem String.[] String.[] = refl
text_or_idem String.[] (String.◌∷◌ c d) = refl
text_or_idem (String.◌∷◌ c s) d = refl

port_or_idem : (n d : ℕ) → port_or (port_or n d) d ≡ port_or n d
port_or_idem n d = ground arith

-- Applying the defaults twice is applying them once.
apply_defaults_idem :
    (sys : System) (c : Config) → apply_defaults sys (apply_defaults sys c) ≡ apply_defaults sys c
unfolding apply_defaults
apply_defaults_idem sys c =
    rw
      (
        text_or_idem c.server.host "0.0.0.0",
        port_or_idem c.server.port 8317,
        text_or_idem c.admin.host "127.0.0.1",
        port_or_idem c.admin.port 8318,
        text_or_idem c.storage.sqlite "~/.providerapi/providerapi.db",
        text_or_idem c.storage.traces "~/.providerapi/traces",
        text_or_idem c.debug.level "metadata",
      )
      refl

Checked-cases :
    {A : Type 0} (x : Checked A) → ((e : ConfigError) × (x ≡ invalid e)) ⊎ ((a : A) × (x ≡ valid a))
Checked-cases (invalid e) = inl (e, refl)
Checked-cases (valid a) = inr (a, refl)

-- A configuration that Load returns is consistent: its level is known and every name that it refers to is
-- there.
load-IsConsistent :
    (sys : System) (dir : String) (decoded : Config) (c : Config)
    → load sys dir decoded ≡ valid c
    → IsConsistent c
unfolding load
load-IsConsistent sys dir decoded c e =
    elim (Checked-cases
      (expand_paths sys (apply_defaults sys (record decoded { config_dir = dir })))) [
        | inl (bad, failed) ↦ ground arith
        | inr (d, expanded) ↦ elim (Checked-cases (validate d)) [
          | inl (bad, failed) ↦ ground arith
          | inr (t, fine) ↦
              let same : c ≡ d = ground arith in rw same ((validate_iff d).0 (ground arith))
        ]
      ]
