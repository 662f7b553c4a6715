-- ===== src/Model.antt =====
-- internal/model: from a client's model name to a provider and its model, and the lists of aliases.
use providerapi.Prelude.{String, Option, none, some, List, map, not, ◌&&◌, ◌==◌, if◌then◌else◌}
use providerapi.Prelude.Int.{ℤ, is_positive}
use providerapi.Text.{is_empty, ◌<>◌}
use providerapi.Dict.{get}
use providerapi.Config.{Config, ModelAlias}
use providerapi.Protocol.Types.{
  ReasoningLevel, reasoning_default, ModelInfo, default_context_length, ProviderError,
}
use providerapi.Protocol.Errors.{model_not_found, invalid_request}
use providerapi.Protocol.Reasoning.{parse_reasoning_level}

pub record Resolved : Type 0 where
  pub client_model : String
  pub provider : String
  pub upstream_model : String
  pub reasoning : ReasoningLevel

pub data Resolution : Type 0 where
  resolved : Resolved → Resolution
  refused : ProviderError → Resolution

-- the level of the alias; `none` is a text that names no level
unfoldable pub alias_level : ModelAlias → Option ReasoningLevel
unfolding parse_reasoning_level
alias_level alias =
    if is_empty alias.reasoning
    then some reasoning_default
    else parse_reasoning_level alias.reasoning

-- a level of the request goes before the alias's
abbrev pub final_level : ReasoningLevel → ReasoningLevel → ReasoningLevel
final_level requested level =
    if not (is_empty requested) && not (requested == reasoning_default) then requested else level

-- Resolve
unfoldable pub resolve : Config → String → ReasoningLevel → Resolution
unfolding get alias_level model_not_found invalid_request
resolve cfg client_model requested = elim (get client_model cfg.models) [
  | none ↦ refused (model_not_found client_model)
  | some alias ↦ elim (alias_level alias) [
    | none ↦ refused (invalid_request ("invalid model alias reasoning: " <> alias.reasoning))
    | some level ↦ resolved (record {
      client_model = client_model;
      provider = alias.provider;
      upstream_model = alias.upstream_model;
      reasoning = final_level requested level;
    })
  ]
]

abbrev context_length_of : ModelAlias → ℤ
context_length_of alias =
    if is_positive alias.context_length then alias.context_length else default_context_length

-- ListAliases
unfoldable pub list_aliases : Config → List ModelInfo
list_aliases cfg =
    map
      (λ e. record {
        id = e.0;
        object = "model";
        owned_by = "providerapi";
        context_length = context_length_of e.1;
      })
      cfg.models

pub record AdminModelInfo : Type 0 where
  pub id : String
  pub provider : String
  pub upstream_model : String
  pub reasoning : String
  pub context_length : ℤ
  pub context_length_source : String

-- ListAdminModels
unfoldable pub list_admin_models : Config → List AdminModelInfo
list_admin_models cfg =
    map
      (λ e. record {
        id = e.0;
        provider = e.1.provider;
        upstream_model = e.1.upstream_model;
        reasoning = if is_empty e.1.reasoning then reasoning_default else e.1.reasoning;
        context_length =
            if is_positive e.1.context_length then e.1.context_length else default_context_length;
        context_length_source = if is_positive e.1.context_length then "configured" else "fallback";
      })
      cfg.models
