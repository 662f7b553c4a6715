-- ===== src/Api/Handler.antt =====
-- internal/api/openai.go: the handlers of the public interface, from the request to the reply. The metrics
-- of durations and of active streams are left out.
pub mod Answers
pub mod Settled
pub mod Kept
pub mod Concurrent
use providerapi.Prelude.{
  ℕ, String, Bool, Option, none, some, List, [], ◌∷◌, ◌++◌, true, false, map, if◌then◌else◌,
}
use providerapi.Prelude.Int.{ℤ, pos}
use providerapi.Dict.{Dict}
use providerapi.Json.{Json, str, num, arr, obj, end, field, items_of}
use providerapi.Redact.{RawJson}
use providerapi.Config.{Config}
use providerapi.Protocol.Types.{
  ProviderError, CompletionRequest, CompletionResponse, StreamEvent, Usage, ModelInfo,
}
use providerapi.Protocol.Errors.{Error, as_provider_error, invalid_request, new_provider_error}
use providerapi.Model.{Resolved, list_aliases}
use providerapi.Plugin.Instance.{Instance, set_trace_handler}
use providerapi.Plugin.Calls.{Called, Outcome, returned, failed, outcome}
use providerapi.Trace.Store.{Store}
use providerapi.Trace.Payload.{Files}
use providerapi.Trace.Session.{
  Session, Ending, start, client_raw, set_routing, normalized, plugin_request, client_response,
  finish,
}
use providerapi.Trace.Session.Audit.{provider_audit}
use providerapi.Api.Chunks.{status_or, openai_error, to_openai_response}
use providerapi.Api.Stream.Written.{
  Frame, Metric, requests_total, provider_errors, panics, token_metrics, Loop, Request,
}
use providerapi.Api.Stream.{handle_stream}
use providerapi.Api.Chat.{ChatIn, extra_of, Routed, reject, route, route_request}
use providerapi.Api.Request.{
  Decoded, decoded, undecoded, Parsed, parsed, unparsable, Outside, Server, Incoming, Reply, answer,
  streamed, hung_up, Served, write_error,
}

-- the arguments of Finish on the paths of errors
abbrev pub failure : ℕ → ProviderError → Ending
failure status pe = record {
  http_status = status;
  status = "error";
  finish = "";
  in_tok = pos 0;
  out_tok = pos 0;
  err_type = pe.typ;
  err_code = pe.code;
  err_msg = pe.message;
}

abbrev pub success : CompletionResponse → Ending
success resp = record {
  http_status = 200;
  status = "ok";
  finish = resp.finish_reason;
  in_tok = elim resp.usage [ none ↦ pos 0 | some u ↦ u.input_tokens ];
  out_tok = elim resp.usage [ none ↦ pos 0 | some u ↦ u.output_tokens ];
  err_type = "";
  err_code = "";
  err_msg = "";
}

-- the error behind `AsProviderError(err)`, where `err` is there
abbrev pub the_error : Error → ProviderError
the_error e = elim (as_provider_error (some e)) [
  | some pe ↦ pe
  | none ↦ new_provider_error 502 "provider_error" ""
]

module _ (o : Outside) where
  -- parseChatRequest
  unfoldable pub parse_chat_request : RawJson → Parsed
  unfolding extra_of
  parse_chat_request raw = elim (o.decode raw) [
    | undecoded e ↦ unparsable e
    | decoded in_ all ↦ parsed in_ (extra_of all)
  ]

  abbrev pub take_audits : List RawJson → Session → Session
  take_audits [] s = s
  take_audits (a ∷ rest) s = take_audits rest (provider_audit o.strip_query a s)

  module _ (r : Incoming) where
    -- an error that is found before a plugin is called
    unfoldable pub refuse : ProviderError → Session → Served
    unfolding write_error finish
    refuse pe s = record {
      reply = write_error pe;
      session = some (finish r.now (failure pe.http_status pe) s);
      metrics = [];
      handlers = [];
    }

    abbrev stream_request : Resolved → Request
    stream_request to = record {
      id = r.id;
      model = to.client_model;
      created = r.created;
      elapsed = r.elapsed;
      now = r.now;
    }

    -- the error of a call, for both kinds of call
    unfoldable pub call_failed : Error → Dict ℕ → Session → Served
    unfolding write_error finish as_provider_error
    call_failed e handlers s =
        let pe = the_error e in
        record {
          reply = write_error pe;
          session = some (finish r.now (failure (status_or (some pe) 502) pe) s);
          metrics = provider_errors pe.code ∷ requests_total "error" ∷ [];
          handlers = handlers;
        }

    -- the counters, the trace and the reply of a response; where a counter panics the handler is left there
    abbrev pub respond_with : Bool → Json → CompletionResponse → Dict ℕ → Session → Served
    respond_with true out resp handlers s = record {
      reply = hung_up;
      session = some s;
      metrics = token_metrics resp.usage;
      handlers = handlers;
    }
    respond_with false out resp handlers s = record {
      reply = answer 200 out;
      session = some (finish r.now (success resp) s);
      metrics = token_metrics resp.usage ++ requests_total "ok" ∷ [];
      handlers = handlers;
    }

    -- a call that is answered with one response
    unfoldable pub respond : Resolved → CompletionResponse → Dict ℕ → Session → Served
    unfolding to_openai_response client_response finish
    respond to resp handlers s =
        let out = to_openai_response o.decimal r.id to.client_model r.created resp in
        respond_with (panics resp.usage) out resp handlers (client_response out s)

    -- handleStream behind its call: a response that cannot be flushed is refused, and the session left open
    unfoldable pub stream_out : Resolved → List StreamEvent → Dict ℕ → Session → Served
    unfolding write_error handle_stream
    stream_out to events handlers s =
        let l = handle_stream o.decimal (stream_request to) r.gone events s in
        if r.can_flush
        then record {
          reply = streamed l.frames;
          session = some l.session;
          metrics = l.metrics;
          handlers = handlers;
        }
        else record {
          reply = write_error (new_provider_error 500 "internal" "streaming not supported");
          session = some s;
          metrics = [];
          handlers = handlers;
        }

    -- the call of the plugin, with the trace handler set around it
    unfoldable pub call_plugin : Resolved → Instance → CompletionRequest → Session → Served
    unfolding set_trace_handler provider_audit outcome
    call_plugin to i req s =
        let i' = set_trace_handler r.id none (set_trace_handler r.id (some 0) i) in
        let s' = take_audits (o.audits i req) s in
        if req.stream
        then elim (outcome (o.stream i req)) [
          | failed e ↦ call_failed e i'.on_trace s'
          | returned events ↦ stream_out to events i'.on_trace s'
        ]
        else elim (outcome (o.complete i req)) [
          | failed e ↦ call_failed e i'.on_trace s'
          | returned resp ↦ respond to resp i'.on_trace s'
        ]

    abbrev plugin_id : Instance → String
    plugin_id i = elim i.manifest [ none ↦ "" | some m ↦ m.id ]

    abbrev plugin_version : Instance → String
    plugin_version i = elim i.manifest [ none ↦ "" | some m ↦ m.version ]

    -- SetRouting, Normalized and PluginRequest
    unfoldable pub trace_request : Resolved → Instance → CompletionRequest → Session → Session
    unfolding set_routing normalized plugin_request
    trace_request to i req s = plugin_request o.encode o.digits req (
        normalized o.encode o.digits req (
          set_routing to.client_model to.provider to.upstream_model to.reasoning (plugin_id i)
            (plugin_version i) s))

    unfoldable pub serve_routed : Routed → Session → Served
    unfolding refuse trace_request call_plugin
    serve_routed (reject pe) s = refuse pe s
    serve_routed (route to i req) s = call_plugin to i req (trace_request to i req s)

    unfoldable pub serve_parsed : Server → Parsed → Session → Served
    unfolding serve_routed route_request invalid_request
    serve_parsed srv (unparsable e) s = refuse (invalid_request e) s
    serve_parsed srv (parsed in_ extra) s =
        serve_routed (route_request srv.cfg srv.instances r.id in_ extra) s

    -- chatCompletions, behind the reading of the body
    unfoldable pub serve_body : Server → Option RawJson → Served
    unfolding start client_raw parse_chat_request serve_parsed write_error
    serve_body srv none = record {
      reply = write_error (invalid_request "failed to read body");
      session = none;
      metrics = [];
      handlers = [];
    }
    serve_body srv (some raw) =
        serve_parsed srv (parse_chat_request raw)
          (client_raw o.size raw (start srv.level r.id r.client_id r.started srv.store srv.files))

    -- chatCompletions
    unfoldable pub chat_completions : Server → Served
    unfolding serve_body
    chat_completions srv = serve_body srv r.body
