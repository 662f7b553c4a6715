-- ===== src/Api/Chat/Routing.antt =====
-- internal/api/openai.go: where chatCompletions sends a request.
use providerapi.Prelude.{String, ◌≡◌, refl, false, none, some, arith}
use providerapi.Text.{is_empty}
use providerapi.Dict.{Dict, get}
use providerapi.Json.{Json}
use providerapi.Config.{Config, ModelAlias, PluginBinary, Credential, valid, validate}
use providerapi.Config.Consistency.{validate-Refers}
use providerapi.Protocol.Types.{ReasoningLevel}
use providerapi.Model.{Resolved, alias_level, final_level, resolve}
use providerapi.Plugin.Instance.{Instance, Launch}
use providerapi.Plugin.Manager.{start_all, get_instance}
use providerapi.Plugin.Manager.Running.{IsRunning, start_all-IsRunning}
use providerapi.Api.Chat.{ChatIn, chosen, request_level, route, canonical, route_request}

-- What a request for an alias resolves to.
abbrev pub target : ChatIn → ModelAlias → ReasoningLevel → ReasoningLevel → Resolved
target in_ alias requested level = record {
  client_model = in_.model;
  provider = alias.provider;
  upstream_model = alias.upstream_model;
  reasoning = final_level requested level;
}

module _ (cfg : Config) (launch : String → PluginBinary → Credential → Launch) where
  abbrev pub instances : Dict Instance
  instances = (start_all cfg launch).0

  -- With a configuration that `validate` accepts and plugins that all start, a request for a configured
  -- alias, with levels that parse, goes to a running instance of the alias's provider, under the alias's
  -- model and the level that the request and the alias give.
  pub route_request-IsRunning :
      (req_id : String) (in_ : ChatIn) (extra : Dict Json) (alias : ModelAlias)
      (requested level : ReasoningLevel)
      → validate cfg ≡ valid tt
      → (start_all cfg launch).1 ≡ none
      → is_empty in_.model ≡ false
      → get in_.model cfg.models ≡ some alias
      → request_level in_ ≡ chosen requested
      → alias_level alias ≡ some level
      → (i : Instance) × IsRunning alias.provider i
        × (route_request cfg instances req_id in_ extra
            ≡ route
                (target in_ alias requested level)
                i
                (canonical req_id in_ extra (target in_ alias requested level)))
  unfolding route_request resolve get_instance
  route_request-IsRunning req_id in_ extra alias requested level v started named there asked known =
      let refers = validate-Refers cfg in_.model alias v there in
      let (i, found, running) =
        start_all-IsRunning cfg launch alias.provider started
          (ground (arith, refers.provider_there)) in
      (i, running, rw (named, asked, there, known, found) refl)
