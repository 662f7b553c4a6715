-- ===== src/Api/Handler/Kept.antt =====
-- internal/api/openai.go: chatCompletions does to its session only what the session's methods do.
use mathlib.Core.Path.{subst}
use providerapi.Prelude.{
  ◌≡◌, ℕ, Bool, true, false, Option, none, some, List, [], ◌∷◌, if◌then◌else◌, inl, inr, Bool-cases,
}
use providerapi.Dict.{Dict}
use providerapi.Json.{Json}
use providerapi.Redact.{RawJson}
use providerapi.Protocol.Types.{ProviderError, CompletionRequest, CompletionResponse, StreamEvent}
use providerapi.Protocol.Errors.{Error, invalid_request}
use providerapi.Model.{Resolved}
use providerapi.Plugin.Instance.{Instance}
use providerapi.Plugin.Calls.{Outcome, returned, failed, outcome}
use providerapi.Trace.Session.{Session, start}
use providerapi.Trace.Session.Use.{
  Use, use_, routed, got, understood, asked, audited, answered, ended,
}
use providerapi.Api.Stream.Written.{panics}
use providerapi.Api.Stream.Kept.{handle_stream-kept}
use providerapi.Api.Chat.{Routed, reject, route}
use providerapi.Api.Request.{Outside, Server, Incoming, Parsed, parsed, unparsable, Served}
use providerapi.Api.Handler.{
  refuse, call_failed, respond, respond_with, stream_out, take_audits, stream_request, call_plugin,
  trace_request, serve_routed, serve_parsed, serve_body, parse_chat_request, chat_completions,
}

module _ (o : Outside) (r : Incoming) (P : Session → Type 0)
    (closed : (u : Use) (s : Session)
      → P s
      → P (use_ o.size o.encode o.digits o.strip_query u s)) where
  -- what is kept of the session of a request that was served
  abbrev Left : Served → Type 0
  Left v = elim v.session [ none ↦ Unit | some s ↦ P s ]

  take_audits-kept : (as_ : List RawJson) (s : Session) → P s → P (take_audits o as_ s)
  take_audits-kept [] s h = h
  take_audits-kept (a ∷ rest) s h = take_audits-kept rest _ (closed (audited a) s h)

  refuse-kept : (pe : ProviderError) (s : Session) → P s → Left (refuse o r pe s)
  unfolding refuse
  refuse-kept pe s h = closed (ended r.now _) s h

  call_failed-kept :
      (e : Error) (handlers : Dict ℕ) (s : Session) → P s → Left (call_failed o r e handlers s)
  unfolding call_failed
  call_failed-kept e handlers s h = closed (ended r.now _) s h

  respond_with-kept :
      (b : Bool) (out : Json) (resp : CompletionResponse) (handlers : Dict ℕ) (s : Session)
      → P s
      → Left (respond_with o r b out resp handlers s)
  respond_with-kept true out resp handlers s h = h
  respond_with-kept false out resp handlers s h = closed (ended r.now _) s h

  respond-kept :
      (to : Resolved) (resp : CompletionResponse) (handlers : Dict ℕ) (s : Session)
      → P s
      → Left (respond o r to resp handlers s)
  unfolding respond
  respond-kept to resp handlers s h =
      respond_with-kept (panics resp.usage) _ resp handlers _ (closed (answered _) s h)

  stream_out-kept :
      (to : Resolved) (events : List StreamEvent) (handlers : Dict ℕ) (s : Session)
      → P s
      → Left (stream_out o r to events handlers s)
  unfolding stream_out
  stream_out-kept to events handlers s h = elim (Bool-cases r.can_flush) [
    | inl e ↦ rw e (
        handle_stream-kept o.size o.encode o.digits o.strip_query P closed o.decimal
          (stream_request o r to) r.gone events s h)
    | inr e ↦ rw e h
  ]

  stream-kept :
      (c : Outcome (List StreamEvent)) (to : Resolved) (handlers : Dict ℕ) (s : Session)
      → P s
      → Left (elim c [
        | failed e ↦ call_failed o r e handlers s
        | returned events ↦ stream_out o r to events handlers s
      ])
  stream-kept (returned events) to handlers s h = stream_out-kept to events handlers s h
  stream-kept (failed e) to handlers s h = call_failed-kept e handlers s h

  complete-kept :
      (c : Outcome CompletionResponse) (to : Resolved) (handlers : Dict ℕ) (s : Session)
      → P s
      → Left (elim c [
        | failed e ↦ call_failed o r e handlers s
        | returned resp ↦ respond o r to resp handlers s
      ])
  complete-kept (returned resp) to handlers s h = respond-kept to resp handlers s h
  complete-kept (failed e) to handlers s h = call_failed-kept e handlers s h

  kind-kept :
      (streams : Bool) (to : Resolved) (i : Instance) (req : CompletionRequest) (handlers : Dict ℕ)
      (s : Session)
      → P s
      → Left (
          if streams
          then elim (outcome (o.stream i req)) [
            | failed e ↦ call_failed o r e handlers s
            | returned events ↦ stream_out o r to events handlers s
          ]
          else elim (outcome (o.complete i req)) [
            | failed e ↦ call_failed o r e handlers s
            | returned resp ↦ respond o r to resp handlers s
          ])
  kind-kept true to i req handlers s h = stream-kept (outcome (o.stream i req)) to handlers s h
  kind-kept false to i req handlers s h = complete-kept (outcome (o.complete i req)) to handlers s h

  call_plugin-kept :
      (to : Resolved) (i : Instance) (req : CompletionRequest) (s : Session)
      → P s
      → Left (call_plugin o r to i req s)
  unfolding call_plugin
  call_plugin-kept to i req s h =
      kind-kept req.stream to i req _ _ (take_audits-kept (o.audits i req) s h)

  serve_routed-kept : (c : Routed) (s : Session) → P s → Left (serve_routed o r c s)
  unfolding serve_routed trace_request
  serve_routed-kept (reject pe) s h = refuse-kept pe s h
  serve_routed-kept (route to i req) s h =
      call_plugin-kept to i req _
        (closed (asked req) _ (closed (understood req) _ (closed (routed _ _ _ _ _ _) s h)))

  serve_parsed-kept :
      (srv : Server) (p : Parsed) (s : Session) → P s → Left (serve_parsed o r srv p s)
  unfolding serve_parsed
  serve_parsed-kept srv (unparsable e) s h = refuse-kept (invalid_request e) s h
  serve_parsed-kept srv (parsed in_ extra) s h = serve_routed-kept _ s h

  body-kept :
      (srv : Server) (body : Option RawJson)
      → P (start srv.level r.id r.client_id r.started srv.store srv.files)
      → Left (serve_body o r srv body)
  unfolding serve_body
  body-kept srv none h = tt
  body-kept srv (some raw) h =
      serve_parsed-kept srv (parse_chat_request o raw) _ (closed (got raw) _ h)

  -- What holds of the session that Start gives and every method of a session preserves, holds of the session
  -- that chatCompletions leaves.
  pub chat_completions-kept :
      (srv : Server) (s : Session)
      → (chat_completions o r srv).session ≡ some s
      → P (start srv.level r.id r.client_id r.started srv.store srv.files)
      → P s
  unfolding chat_completions
  chat_completions-kept srv s left h =
      subst (λ (x : Option Session). elim x [ none ↦ Unit | some s ↦ P s ]) left
        (body-kept srv r.body h)
