-- ===== src/Api/Handler/Answers.antt =====
-- internal/api/openai.go: what each reply of chatCompletions leaves of its request.
use providerapi.Prelude.{
  ℕ, String, ◌≡◌, refl, ◌∙◌, Bool, true, false, none, some, List, [], ◌∷◌, if◌then◌else◌,
}
use providerapi.Prelude.Int.{ℤ}
use providerapi.Dict.{Dict, get, get-empty}
use providerapi.Json.{Json}
use providerapi.Redact.{RawJson}
use providerapi.Protocol.Types.{ProviderError, CompletionRequest, StreamEvent, CompletionResponse}
use providerapi.Protocol.Errors.{Error}
use providerapi.Model.{Resolved}
use providerapi.Plugin.Instance.{Instance}
use providerapi.Plugin.Calls.{Outcome, returned, failed, outcome}
use providerapi.Trace.Store.{RequestRow, get_request}
use providerapi.Trace.Session.{Session, Ending, finish, client_response}
use providerapi.Trace.Session.Use.{Use, use_, audited, answered}
use providerapi.Trace.Session.Kept.{View, is_ended, use-View, Traced, finish-Filed}
use providerapi.Api.Chunks.{status_or, to_openai_response}
use providerapi.Api.Stream.Written.{Metric, panics}
use providerapi.Api.Stream.{handle_stream}
use providerapi.Api.Stream.Filed.{Carried, Shows, handle_stream-Finished}
use providerapi.Api.Stream.Outcome.{any_error}
use providerapi.Api.Request.{
  Outside, Incoming, Reply, answer, streamed, hung_up, Served, write_error,
}
use providerapi.Api.Handler.{
  failure, success, the_error, refuse, call_failed, respond, respond_with, stream_out, take_audits,
  stream_request,
}
use providerapi.Api.Chat.Refusal.{HasStatus}

-- What the stored row says of the reply, where `gone` tells whether the client has left: the status of a reply
-- that is one answer; of a stream that the client has left 499, and else 200 or that it failed. The connection is not hung up.
abbrev pub Told : Bool → Reply → RequestRow → Type 0
Told gone (answer status body) row = row.http_status ≡ status
Told gone (streamed frames) row = (failed : Bool) × Shows gone failed row
Told gone hung_up row = ⊥

-- A request that was served and traced: its row is stored and finished, it agrees with the reply, and the
-- instance that was called has no trace handler of the request left.
pub record Settled (id : String) (gone : Bool) (now : ℤ) (v : Served) : Type 0 where
  pub session : Session
  pub traced : v.session ≡ some session
  pub row : RequestRow
  pub found : get_request id session.store ≡ some row
  pub at_end : row.finished_at ≡ now
  pub told : Told gone v.reply row
  pub forgotten : get id v.handlers ≡ none

module _ (o : Outside) (r : Incoming) where
  pub use-Traced :
      (u : Use) (s : Session)
      → is_ended u ≡ false
      → View (Traced r.id) s
      → View (Traced r.id) (use_ o.size o.encode o.digits o.strip_query u s)
  use-Traced u s plain h = use-View (Traced r.id) o.size o.encode o.digits o.strip_query u s plain h

  pub take_audits-Traced :
      (as_ : List RawJson) (s : Session)
      → View (Traced r.id) s
      → View (Traced r.id) (take_audits o as_ s)
  take_audits-Traced [] s h = h
  take_audits-Traced (a ∷ rest) s h = take_audits-Traced rest _ (use-Traced (audited a) s refl h)

  -- a reply of one answer, with the ending that goes with it
  answered-Settled :
      (status : ℕ) (body : Json) (e : Ending) (s : Session) (ms : List Metric) (handlers : Dict ℕ)
      → e.http_status ≡ status
      → get r.id handlers ≡ none
      → View (Traced r.id) s
      → Settled r.id r.gone r.now (record {
        reply = answer status body;
        session = some (finish r.now e s);
        metrics = ms;
        handlers = handlers;
      })
  unfolding get_request
  answered-Settled status body e s ms handlers same gone h =
      let f = (finish-Filed r.id r.now e s h).1 in
      record {
        session = finish r.now e s;
        traced = refl;
        row = f.row;
        found = f.found;
        at_end = f.holds.at_end;
        told = f.holds.http ∙ same;
        forgotten = gone;
      }

  pub refuse-Settled :
      (pe : ProviderError) (s : Session)
      → HasStatus pe
      → View (Traced r.id) s
      → Settled r.id r.gone r.now (refuse o r pe s)
  unfolding refuse write_error status_or
  refuse-Settled pe s named h =
      answered-Settled _ _ (failure pe.http_status pe) s [] [] (rw named refl) (get-empty r.id) h

  call_failed-Settled :
      (e : Error) (handlers : Dict ℕ) (s : Session)
      → get r.id handlers ≡ none
      → View (Traced r.id) s
      → Settled r.id r.gone r.now (call_failed o r e handlers s)
  unfolding call_failed write_error
  call_failed-Settled e handlers s gone h =
      answered-Settled _ _ (failure (status_or (some (the_error e)) 502) (the_error e)) s _ handlers
        refl gone h

  respond_with-Settled :
      (b : Bool) (out : Json) (resp : CompletionResponse) (handlers : Dict ℕ) (s : Session)
      → b ≡ false
      → get r.id handlers ≡ none
      → View (Traced r.id) s
      → Settled r.id r.gone r.now (respond_with o r b out resp handlers s)
  respond_with-Settled true out resp handlers s sound gone h = cc
  respond_with-Settled false out resp handlers s sound gone h =
      answered-Settled 200 out (success resp) s _ handlers refl gone h

  respond-Settled :
      (to : Resolved) (resp : CompletionResponse) (handlers : Dict ℕ) (s : Session)
      → panics resp.usage ≡ false
      → get r.id handlers ≡ none
      → View (Traced r.id) s
      → Settled r.id r.gone r.now (respond o r to resp handlers s)
  unfolding respond
  respond-Settled to resp handlers s sound gone h =
      let out = to_openai_response o.decimal r.id to.client_model r.created resp in
      respond_with-Settled (panics resp.usage) out resp handlers (client_response out s) sound gone
        (use-Traced (answered out) s refl h)

  stream_out-Settled :
      (to : Resolved) (events : List StreamEvent) (handlers : Dict ℕ) (s : Session)
      → r.can_flush ≡ true
      → Carried events
      → get r.id handlers ≡ none
      → View (Traced r.id) s
      → Settled r.id r.gone r.now (stream_out o r to events handlers s)
  unfolding stream_out get_request
  stream_out-Settled to events handlers s flush carried gone h =
      let q = stream_request o r to in
      let f = (handle_stream-Finished o.decimal q r.id r.gone events s carried h).1 in
      rw flush (record {
        session = (handle_stream o.decimal q r.gone events s).session;
        traced = refl;
        row = f.row;
        found = f.found;
        at_end = f.holds.0;
        told = (any_error events, f.holds.1);
        forgotten = gone;
      })

  stream_outcome-Settled :
      (c : Outcome (List StreamEvent)) (to : Resolved) (handlers : Dict ℕ) (s : Session)
      → r.can_flush ≡ true
      → ((events : List StreamEvent) → c ≡ returned events → Carried events)
      → get r.id handlers ≡ none
      → View (Traced r.id) s
      → Settled r.id r.gone r.now (elim c [
        | failed e ↦ call_failed o r e handlers s
        | returned events ↦ stream_out o r to events handlers s
      ])
  stream_outcome-Settled (returned events) to handlers s flush carried gone h =
      stream_out-Settled to events handlers s flush (carried events refl) gone h
  stream_outcome-Settled (failed e) to handlers s flush carried gone h =
      call_failed-Settled e handlers s gone h

  outcome-Settled :
      (c : Outcome CompletionResponse) (to : Resolved) (handlers : Dict ℕ) (s : Session)
      → ((resp : CompletionResponse) → c ≡ returned resp → panics resp.usage ≡ false)
      → get r.id handlers ≡ none
      → View (Traced r.id) s
      → Settled r.id r.gone r.now (elim c [
        | failed e ↦ call_failed o r e handlers s
        | returned resp ↦ respond o r to resp handlers s
      ])
  outcome-Settled (returned resp) to handlers s sound gone h =
      respond-Settled to resp handlers s (sound resp refl) gone h
  outcome-Settled (failed e) to handlers s sound gone h = call_failed-Settled e handlers s gone h

  pub kind-Settled :
      (streams : Bool) (to : Resolved) (i : Instance) (req : CompletionRequest) (handlers : Dict ℕ)
      (s : Session)
      → r.can_flush ≡ true
      → ((events : List StreamEvent) → outcome (o.stream i req) ≡ returned events → Carried events)
      → ((resp : CompletionResponse)
          → outcome (o.complete i req) ≡ returned resp
          → panics resp.usage ≡ false)
      → get r.id handlers ≡ none
      → View (Traced r.id) s
      → Settled r.id r.gone r.now (
          if streams
          then elim (outcome (o.stream i req)) [
            | failed e ↦ call_failed o r e handlers s
            | returned events ↦ stream_out o r to events handlers s
          ]
          else elim (outcome (o.complete i req)) [
            | failed e ↦ call_failed o r e handlers s
            | returned resp ↦ respond o r to resp handlers s
          ])
  kind-Settled true to i req handlers s flush carried sound gone h =
      stream_outcome-Settled (outcome (o.stream i req)) to handlers s flush carried gone h
  kind-Settled false to i req handlers s flush carried sound gone h =
      outcome-Settled (outcome (o.complete i req)) to handlers s sound gone h
