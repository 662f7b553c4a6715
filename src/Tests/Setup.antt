-- ===== src/Tests/Setup.antt =====
-- A configuration, and values with secrets.
use providerapi.Prelude.{◌≡◌, ◌↔◌, none, [], ◌∷◌}
use providerapi.Prelude.Int.{pos}
use providerapi.Json.{Json, str, obj, end, field}
use providerapi.Config.{Config, ModelAlias, valid, validate}
use providerapi.Config.Consistency.{IsConsistent, validate_iff}
use providerapi.Redact.{redact_value}
use providerapi.Redact.Secrets.{HidesSecrets, redact_value-HidesSecrets}

abbrev pub alias_ : ModelAlias
alias_ = record {
  provider = "main";
  upstream_model = "m-1";
  reasoning = "";
  context_length = pos 0;
}

abbrev pub setup : Config
setup = record {
  server = record { host = ""; port = 0 };
  admin = record { host = ""; port = 0; token = "" };
  storage = record { sqlite = ""; traces = "" };
  debug = record {
    level = "Full";
    retention = "";
    full_retention = "";
    retention_d = 0;
    full_retention_d = 0;
  };
  plugins = ("compat", record { command = "compat"; args = [] }) ∷ [];
  providers = ("main", record { plugin = "compat"; credential = ""; config = none }) ∷ [];
  credentials = [];
  models = ("fast", alias_) ∷ [];
  config_dir = "/etc";
}

validate_iff_example : (validate setup ≡ valid tt) ↔ IsConsistent setup
validate_iff_example = validate_iff setup

abbrev secret : Json
secret = obj (field "Api-Key" (str "k") (field "note" (str "plain") end))

redact_value-HidesSecrets_example : HidesSecrets (redact_value secret)
redact_value-HidesSecrets_example = redact_value-HidesSecrets secret
