-- ===== src/Tests/Requests.antt =====
-- A chat request, its routing and its upstream body.
use providerapi.Prelude.{◌≡◌, refl, true, none, some, [], ◌∷◌, arith, ◌≢◌}
use providerapi.Dict.{Dict, get}
use providerapi.Json.{Json, null, str, obj, Fields, end, field, get_field, arr, cons, nil}
use providerapi.Json.Merge.{IsMap}
use providerapi.Config.{validate}
use providerapi.Protocol.Types.{CompletionRequest, Tool, Content}
use providerapi.Protocol.Content.{unmarshal_content, marshal_content, empty_content}
use providerapi.Protocol.Content.RoundTrip.{Agree, unmarshal_content-marshal_content}
use providerapi.Model.{alias_level}
use providerapi.Plugin.Instance.{Instance}
use providerapi.Plugin.Manager.{start_all}
use providerapi.Plugin.Manager.Running.{IsRunning}
use providerapi.Api.Chat.{ChatIn, request_level, route, route_request, canonical}
use providerapi.Api.Chat.Routing.{target, instances, route_request-IsRunning}
use providerapi.Compat.Body.{InstanceConfig, body, build_body}
use providerapi.Compat.Body.Guarded.{Asks, build_body-Asks}
use providerapi.Tests.Setup.{setup, alias_}
use providerapi.Tests.Plugins.{launch}
use providerapi.Tests.Api.{digits}

abbrev tool : Tool
tool = record {
  typ = "function";
  function = some (record { name = "f"; description = ""; parameters = some null });
  custom = none;
  raw = some (str "raw");
}

abbrev fields : Dict Json
fields = ("model", str "fast") ∷ ("top_p", str "1") ∷ []

abbrev pub chat : ChatIn
chat = record {
  model = "fast";
  messages = [];
  tools = [];
  tool_choice = none;
  temperature = none;
  max_tokens = none;
  stream = true;
  reasoning_effort = "";
  reasoning = "";
}

route_request-IsRunning_example :
    (i : Instance) × IsRunning "main" i
    × (route_request setup (instances setup launch) "req_1" chat []
        ≡ route
            (target chat alias_ "default" "default")
            i
            (canonical "req_1" chat [] (target chat alias_ "default" "default")))
unfolding validate get start_all request_level alias_level
route_request-IsRunning_example =
    route_request-IsRunning setup launch "req_1" chat [] alias_ "default" "default" refl refl refl
      refl refl refl

abbrev asked_for : CompletionRequest
asked_for = canonical "req_1" chat [] (target chat alias_ "default" "low")

abbrev patch : Fields
patch = field "model" (str "x") (field "effort" (str "low") end)

abbrev provider_config : InstanceConfig
provider_config = record {
  base_url = "https://example.com";
  extra_headers = [];
  reasoning_map = ("low", obj patch) ∷ [];
}

abbrev built : Fields
built = elim (build_body digits provider_config asked_for true) [ body b ↦ b | _ ↦ end ]

patch-IsMap : (src : Fields) → get "low" provider_config.reasoning_map ≡ some (obj src) → IsMap src
unfolding get get_field
patch-IsMap src e = let same : src ≡ patch = ground arith in rw same (refl, (refl, tt))

build_body-Asks_example : Asks digits asked_for true built
unfolding build_body
build_body-Asks_example =
    build_body-Asks digits provider_config asked_for true built patch-IsMap refl

abbrev image : Json
image = arr (
    cons (obj (field "type" (str "image_url") (field "image_url" (str "u") end)))
      (cons (obj (field "type" (str "text") (field "text" (str "hi") end))) nil))

abbrev content : Content
content = elim (unmarshal_content image) [ some c ↦ c | none ↦ empty_content ]

image-ne-null : image ≢ null
image-ne-null e = cc

unmarshal_content-marshal_content_example :
    (d : Content) × (unmarshal_content (marshal_content content) ≡ some d) × Agree content d
unfolding unmarshal_content
unmarshal_content-marshal_content_example =
    unmarshal_content-marshal_content image content image-ne-null refl
