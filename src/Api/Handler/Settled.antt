-- ===== src/Api/Handler/Settled.antt =====
-- internal/api/openai.go: what chatCompletions leaves of a request, on every path.
use providerapi.Prelude.{String, ◌≡◌, refl, true, false, Option, none, some, List}
use providerapi.Dict.{get, put, get-remove_self}
use providerapi.Redact.{RawJson}
use providerapi.Protocol.Types.{ProviderError, CompletionRequest, CompletionResponse, StreamEvent}
use providerapi.Protocol.Errors.{invalid_request}
use providerapi.Model.{Resolved}
use providerapi.Plugin.Instance.{Instance, set_trace_handler}
use providerapi.Plugin.Calls.{returned, outcome}
use providerapi.Trace.Store.{Store}
use providerapi.Trace.Store.Rows.{IsKeyed, get_request-upsert_request}
use providerapi.Trace.Session.{
  Session, is_off, start, first_row, set_routing, normalized, client_raw,
}
use providerapi.Trace.Session.Use.{routed, got, understood, asked}
use providerapi.Trace.Session.Kept.{View, Traced}
use providerapi.Trace.Payload.{Files}
use providerapi.Api.Stream.Filed.{Carried}
use providerapi.Api.Stream.Written.{panics}
use providerapi.Api.Chat.{Routed, reject, route}
use providerapi.Api.Request.{Outside, Server, Incoming, Parsed, parsed, unparsable}
use providerapi.Api.Handler.{
  call_plugin, trace_request, serve_routed, serve_parsed, parse_chat_request, chat_completions,
  serve_body, take_audits, plugin_id, plugin_version,
}
use providerapi.Api.Chat.Refusal.{HasStatus, route_request-HasStatus}
use providerapi.Api.Handler.Answers.{
  Settled, use-Traced, take_audits-Traced, refuse-Settled, kind-Settled,
}

module _ (o : Outside) (r : Incoming) where
  call_plugin-Settled :
      (to : Resolved) (i : Instance) (req : CompletionRequest) (s : Session)
      → r.can_flush ≡ true
      → ((events : List StreamEvent) → outcome (o.stream i req) ≡ returned events → Carried events)
      → ((resp : CompletionResponse)
          → outcome (o.complete i req) ≡ returned resp
          → panics resp.usage ≡ false)
      → View (Traced r.id) s
      → Settled r.id r.gone r.now (call_plugin o r to i req s)
  unfolding call_plugin set_trace_handler
  call_plugin-Settled to i req s flush carried sound h =
      let i' = set_trace_handler r.id none (set_trace_handler r.id (some 0) i) in
      let gone : get r.id i'.on_trace ≡ none = get-remove_self r.id (put r.id 0 i.on_trace) in
      let h' = take_audits-Traced o r (o.audits i req) s h in
      kind-Settled o r req.stream to i req i'.on_trace (take_audits o (o.audits i req) s) flush
        carried sound gone h'

  trace_request-Traced :
      (to : Resolved) (i : Instance) (req : CompletionRequest) (s : Session)
      → View (Traced r.id) s
      → View (Traced r.id) (trace_request o r to i req s)
  unfolding trace_request
  trace_request-Traced to i req s h =
      let s1 =
        set_routing to.client_model to.provider to.upstream_model to.reasoning (plugin_id o r i)
          (plugin_version o r i) s in
      let h1 =
        use-Traced o r
          (routed to.client_model to.provider to.upstream_model to.reasoning (plugin_id o r i)
            (plugin_version o r i))
          s refl h in
      let h2 = use-Traced o r (understood req) s1 refl h1 in
      use-Traced o r (asked req) (normalized o.encode o.digits req s1) refl h2

  start-Traced :
      (level : String) (st : Store) (files : Files)
      → is_off level ≡ false
      → IsKeyed st.requests
      → View (Traced r.id) (start level r.id r.client_id r.started st files)
  unfolding start
  start-Traced level st files on keyed = rw on (record {
    same_id = refl;
    on = on;
    keyed = (get_request-upsert_request r.id (first_row r.id r.client_id r.started) st keyed).0;
  })

  module _ (srv : Server) (flush : r.can_flush ≡ true)
      (carried : (i : Instance) (req : CompletionRequest) (events : List StreamEvent)
        → outcome (o.stream i req) ≡ returned events
        → Carried events)
      (sound : (i : Instance) (req : CompletionRequest) (resp : CompletionResponse)
        → outcome (o.complete i req) ≡ returned resp
        → panics resp.usage ≡ false) where
    serve_routed-Settled :
        (c : Routed) (s : Session)
        → ((pe : ProviderError) → c ≡ reject pe → HasStatus pe)
        → View (Traced r.id) s
        → Settled r.id r.gone r.now (serve_routed o r c s)
    unfolding serve_routed
    serve_routed-Settled (reject pe) s named h = refuse-Settled o r pe s (named pe refl) h
    serve_routed-Settled (route to i req) s named h =
        call_plugin-Settled to i req _ flush (carried i req) (sound i req)
          (trace_request-Traced to i req s h)

    serve_parsed-Settled :
        (p : Parsed) (s : Session)
        → View (Traced r.id) s
        → Settled r.id r.gone r.now (serve_parsed o r srv p s)
    unfolding serve_parsed invalid_request
    serve_parsed-Settled (unparsable e) s h = refuse-Settled o r (invalid_request e) s refl h
    serve_parsed-Settled (parsed in_ extra) s h =
        serve_routed-Settled _ s
          (λ pe e. route_request-HasStatus srv.cfg srv.instances r.id in_ extra pe e) h

    body-Settled :
        (body : Option RawJson) (raw : RawJson)
        → body ≡ some raw
        → is_off srv.level ≡ false
        → IsKeyed srv.store.requests
        → Settled r.id r.gone r.now (serve_body o r srv body)
    unfolding serve_body
    body-Settled none raw there on keyed = cc
    body-Settled (some body) raw there on keyed =
        let s = start srv.level r.id r.client_id r.started srv.store srv.files in
        serve_parsed-Settled (parse_chat_request o body) (client_raw o.size body s)
          (use-Traced o r (got body) s refl (start-Traced srv.level srv.store srv.files on keyed))

    -- Where traces are on, the table has at most one row for an id, the body can be read, the response can
    -- be flushed, every error event of a plugin's stream carries an error and no usage that counts has a
    -- negative number: whatever the body is, whatever
    -- the plugin answers and whether or not the client goes, the request's row is stored behind the handler,
    -- finished at the end's time, with the status of the reply where the reply is one answer; and the plugin
    -- that was called has no trace handler of the request.
    pub chat_completions-Settled :
        (raw : RawJson)
        → r.body ≡ some raw
        → is_off srv.level ≡ false
        → IsKeyed srv.store.requests
        → Settled r.id r.gone r.now (chat_completions o r srv)
    unfolding chat_completions
    chat_completions-Settled raw there on keyed = body-Settled r.body raw there on keyed
