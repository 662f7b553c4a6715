-- ===== src/Tests/Handler.antt =====
-- A server with one instance, and a request that is streamed from it.
use providerapi.Prelude.{◌≡◌, inl, inr, refl, ap, true, false, none, some, List, [], ◌∷◌, arith}
use providerapi.Prelude.Int.{pos}
use providerapi.Text.{codes, same_codes}
use providerapi.Json.{str, obj, end, field}
use providerapi.Redact.{json}
use providerapi.Protocol.Types.{StreamEvent, CompletionRequest, CompletionResponse}
use providerapi.Plugin.Instance.{Instance, local}
use providerapi.Plugin.Calls.{replied, broken, returned, outcome}
use providerapi.Config.{Config}
use providerapi.Trace.Store.{empty_store}
use providerapi.Api.Admin.Routes.{State, own, unauthorized, routes, api, get_requests}
use providerapi.Api.Admin.Shown.{Holds, routes-unauthorized}
use providerapi.Api.Chat.Routing.{instances}
use providerapi.Api.Stream.Written.{panics}
use providerapi.Api.Stream.Filed.{Carried}
use providerapi.Api.Request.{Outside, Server, Incoming, decoded}
use providerapi.Tests.Setup.{setup}
use providerapi.Tests.Plugins.{launch}
use providerapi.Tests.Api.{digits, events}
use providerapi.Tests.Requests.{chat}

abbrev pub outside : Outside
outside = record {
  size = λ _. "2";
  encode = λ req. str req.model;
  decimal = digits;
  digits = λ _. "1";
  strip_query = λ url. url;
  decode = λ _. decoded chat [];
  audits = λ _ _. json (obj (field "type" (str "provider_request") end)) ∷ [];
  complete = λ _ _. broken (local "no answer");
  stream = λ _ _. replied events;
}

abbrev pub server : Server
server = record {
  cfg = setup;
  instances = instances setup launch;
  level = "metadata";
  store = empty_store;
  files = [];
}

abbrev pub incoming : Incoming
incoming = record {
  id = "chatcmpl-1";
  client_id = "mine";
  started = pos 5;
  created = pos 6;
  elapsed = pos 2;
  now = pos 9;
  body = some (json (obj (field "model" (str "fast") end)));
  gone = false;
  can_flush = true;
}

pub stream-Carried :
    (i : Instance) (req : CompletionRequest) (evs : List StreamEvent)
    → outcome (outside.stream i req) ≡ returned evs
    → Carried evs
unfolding outcome
stream-Carried i req evs h =
    let same : evs ≡ events = ground arith in
    rw same ((λ bad. cc, (λ bad. cc, (λ bad. cc, tt))), refl)

pub complete-plain :
    (i : Instance) (req : CompletionRequest) (resp : CompletionResponse)
    → outcome (outside.complete i req) ≡ returned resp
    → panics resp.usage ≡ false
unfolding outcome
complete-plain i req resp h = ground arith

abbrev guarded_setup : Config
guarded_setup = record setup { admin = record { host = ""; port = 0; token = "k" } }

abbrev state : State
state = record { cfg = guarded_setup; instances = []; store = empty_store; files = [] }

lacks : ¬ Holds "k" "" "Bearer x"
lacks (inl e) = cc
lacks (inr (_, inl e)) = cc
lacks (inr (_, inr e)) = let bad : true ≡ false = ap (λ l. same_codes l (codes "Bearer x")) e in cc

routes-unauthorized_example :
    routes digits
      (λ _. "1")
      (λ _. pos 7)
      (λ _. pos 0)
      (λ _. true)
      ""
      "Bearer x"
      none
      state
      (api get_requests)
    ≡ own unauthorized
routes-unauthorized_example =
    routes-unauthorized digits (λ _. "1") (λ _. pos 7) (λ _. pos 0) (λ _. true) "" "Bearer x" none
      state get_requests refl lacks
