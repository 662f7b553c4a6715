-- ===== src/Config.antt =====
-- internal/config/config.go: the configuration, its defaults, its paths and its validation. The YAML
-- decoder, the environment and the functions of `time` and `path/filepath` are parameters.
pub mod Defaults
pub mod Consistency
use providerapi.Prelude.{
  ℕ, ◌*◌, String, Bool, true, false, not, ◌||◌, Option, none, some, List, [], ◌∷◌, eqb, ◌==◌,
  if◌then◌else◌,
}
use providerapi.Prelude.Int.{ℤ}
use providerapi.Text.{codes, same_codes, has_prefix, to_lower, is_empty}
use providerapi.Dict.{Dict, has}
use providerapi.Json.{Json}

pub record ServerConfig : Type 0 where
  pub host : String
  pub port : ℕ

pub record AdminConfig : Type 0 where
  pub host : String
  pub port : ℕ
  pub token : String

pub record StorageConfig : Type 0 where
  pub sqlite : String
  pub traces : String

-- Durations are in nanoseconds.
pub record DebugConfig : Type 0 where
  pub level : String
  pub retention : String
  pub full_retention : String
  pub retention_d : ℕ
  pub full_retention_d : ℕ

pub record PluginBinary : Type 0 where
  pub command : String
  pub args : List String

pub record ProviderInstance : Type 0 where
  pub plugin : String
  pub credential : String
  pub config : Option Json

pub record Credential : Type 0 where
  pub provider : String
  pub env : String

pub record ModelAlias : Type 0 where
  pub provider : String
  pub upstream_model : String
  pub reasoning : String
  pub context_length : ℤ

pub record Config : Type 0 where
  pub server : ServerConfig
  pub admin : AdminConfig
  pub storage : StorageConfig
  pub debug : DebugConfig
  pub plugins : Dict PluginBinary
  pub providers : Dict ProviderInstance
  pub credentials : Dict Credential
  pub models : Dict ModelAlias
  pub config_dir : String

-- What `Load` takes from the system: the home directory, filepath.Join, time.ParseDuration.
pub record System : Type 0 where
  pub home : Option String
  pub join : String → String → String
  pub read_duration : String → Option ℕ

pub data ConfigError : Type 0 where
  no_home bad_level : ConfigError
  provider_required : String → ConfigError
  unknown_provider : String → String → ConfigError
  plugin_required : String → ConfigError
  unknown_plugin : String → String → ConfigError
  unknown_credential : String → String → ConfigError

pub data Checked {ℓ} (A : Type ℓ) : Type ℓ where
  valid : A → Checked A
  invalid : ConfigError → Checked A

-- An early return of the first error.
infixl 5 ◌>>=◌ ◌>>◌
abbrev pub ◌>>=◌ {ℓ κ} : {B : Type κ} {A : Type ℓ} → Checked A → (A → Checked B) → Checked B
invalid failure >>= next = invalid failure
valid value >>= next = next value

-- A check whose result is not used.
abbrev pub ◌>>◌ {κ} : {B : Type κ} → Checked (Unit {0}) → Checked B → Checked B
invalid failure >> next = invalid failure
valid done >> next = next

abbrev hour : ℕ
hour = 3600000000000

abbrev text_or : String → String → String
text_or s fallback = if is_empty s then fallback else s

abbrev port_or : ℕ → ℕ → ℕ
port_or n fallback = if eqb n 0 then fallback else n

unfoldable pub parse_duration : System → String → ℕ → ℕ
parse_duration sys s fallback =
    if is_empty s then fallback else elim (sys.read_duration s) [ none ↦ fallback | some d ↦ d ]

-- (*Config).applyDefaults; a map that is nil is an empty one here already
unfoldable pub apply_defaults : System → Config → Config
unfolding parse_duration
apply_defaults sys c = record c {
  server = record { host = text_or c.server.host "0.0.0.0"; port = port_or c.server.port 8317 };
  admin = record c.admin {
    host = text_or c.admin.host "127.0.0.1";
    port = port_or c.admin.port 8318;
  };
  storage = record {
    sqlite = text_or c.storage.sqlite "~/.providerapi/providerapi.db";
    traces = text_or c.storage.traces "~/.providerapi/traces";
  };
  debug = record c.debug {
    level = text_or c.debug.level "metadata";
    retention_d = parse_duration sys c.debug.retention (168 * hour);
    full_retention_d = parse_duration sys c.debug.full_retention (24 * hour);
  };
}

-- p[2:] of a text that begins with "~/"
abbrev pub drop_two : String → String
drop_two (String.◌∷◌ _ (String.◌∷◌ _ s)) = s
drop_two _ = ""

unfoldable pub expand_path : System → String → Checked String
expand_path sys p =
    if is_empty p
    then valid ""
    else if has_prefix (codes p) (codes "~/")
    then elim sys.home [ none ↦ invalid no_home | some home ↦ valid (sys.join home (drop_two p)) ]
    else valid p

-- filepath.IsAbs, on Unix
abbrev is_abs : String → Bool
is_abs p = has_prefix (codes p) (codes "/")

unfoldable pub resolve_command : System → String → String → Checked String
unfolding expand_path
resolve_command sys dir cmd = if is_empty cmd then valid "" else do
  expanded ← expand_path sys cmd
  if is_abs expanded then valid expanded else valid (sys.join dir expanded)

-- the loop over the plugins
unfoldable pub resolve_plugins : System → String → Dict PluginBinary → Checked (Dict PluginBinary)
unfolding resolve_command
resolve_plugins sys dir [] = valid []
resolve_plugins sys dir ((name, p) ∷ rest) = do
  command ← resolve_command sys dir p.command
  done ← resolve_plugins sys dir rest
  valid ((name, record p { command = command }) ∷ done)

-- (*Config).expandPaths
unfoldable pub expand_paths : System → Config → Checked Config
unfolding resolve_plugins
expand_paths sys c = do
  sqlite ← expand_path sys c.storage.sqlite
  traces ← expand_path sys c.storage.traces
  plugins ← resolve_plugins sys c.config_dir c.plugins
  valid (record c { storage = record { sqlite = sqlite; traces = traces }; plugins = plugins })

-- The `switch` on strings.ToLower of the level.
unfoldable pub level_ok : String → Bool
unfolding to_lower
level_ok level =
    let low = to_lower level in
    same_codes low (codes "off")
    || same_codes low (codes "metadata")
    || same_codes low (codes "full")

abbrev require : Bool → ConfigError → Checked (Unit {0})
require holds failure = if holds then valid tt else invalid failure

-- one round of the loop over the models
unfoldable pub check_model : Dict ProviderInstance → String → ModelAlias → Checked (Unit {0})
check_model providers name alias = do
  require (not (is_empty alias.provider)) (provider_required name)
  require (has alias.provider providers) (unknown_provider name alias.provider)

-- one round of the loop over the providers
unfoldable pub check_provider :
    Dict PluginBinary → Dict Credential → String → ProviderInstance → Checked (Unit {0})
check_provider plugins credentials name inst = do
  require (not (is_empty inst.plugin)) (plugin_required name)
  require (has inst.plugin plugins) (unknown_plugin name inst.plugin)
  require (is_empty inst.credential || has inst.credential credentials)
      (unknown_credential name inst.credential)

-- a loop over a map that returns the first error
unfoldable pub check_all {ℓ} :
    {V : Type ℓ} → (String → V → Checked (Unit {0})) → Dict V → Checked (Unit {0})
check_all check [] = valid tt
check_all check ((k, v) ∷ rest) = do check k v; check_all check rest

-- (*Config).validate
unfoldable pub validate : Config → Checked (Unit {0})
unfolding level_ok check_all check_model check_provider
validate c = do
  require (level_ok c.debug.level) bad_level
  check_all (check_model c.providers) c.models
  check_all (check_provider c.plugins c.credentials) c.providers

-- `Load`, from the decoded file and the directory that it lies in
unfoldable pub load : System → String → Config → Checked Config
unfolding apply_defaults expand_paths validate
load sys dir decoded = do
  c ← expand_paths sys (apply_defaults sys (record decoded { config_dir = dir }))
  validate c
  valid c
