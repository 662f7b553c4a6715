-- ===== src/Sdk.antt =====
-- sdk/plugin/server.go: the plugin's side of the connection. A json.Unmarshal of the parameters is a
-- function of them, and its result is `Decoded`.
pub mod Audit
pub mod Errors
pub mod Forward
pub mod Listen
use providerapi.Prelude.{
  ℕ, suc, String, Bool, true, false, not, ◌||◌, ◌⊎◌, inl, inr, Option, none, some, List, [], ◌∷◌,
  ◌++◌, ◌==◌, if◌then◌else◌,
}
use providerapi.Text.{◌<>◌}
use providerapi.Dict.{Dict, get, put, remove}
use providerapi.Json.{Json, str, bool, obj, arr, Items, end, field, put_field}
use providerapi.Protocol.Types.{
  CompletionRequest, CompletionResponse, StreamEvent, stream_end, error_event, ProviderError,
}
use providerapi.Protocol.Errors.{Error, provider, other}
use providerapi.Redact.{RawJson, headers, redact_json}
use providerapi.Protocol.Errors.Wire.{encode_provider_error}
use providerapi.JsonRpc.{Request, RpcError, Outcome, success, rpc_error, failure}
use providerapi.Plugin.Streams.{is_end}

pub data Decoded {ℓ} (A : Type ℓ) : Type ℓ where
  good : A → Decoded A
  bad : String → Decoded A

pub record HandshakeRequest : Type 0 where
  pub protocol_version : String
  pub instance_id : String
  pub config : Option Json

-- Handler, with each result as it is encoded: a value, or an error. A stream is the events that will
-- come out of its channel.
pub record PluginHandler : Type 0 where
  pub handshake : HandshakeRequest → Json ⊎ Error
  pub health : Option Error
  pub models : Json ⊎ Error
  pub complete : CompletionRequest → Json ⊎ Error
  pub stream : CompletionRequest → List StreamEvent ⊎ Error

pub record Decoders : Type 0 where
  pub handshake : Option Json → Decoded HandshakeRequest
  pub request : Option Json → Decoded CompletionRequest
  pub stream_id : Option Json → Decoded String

-- `streams` are the streams with a cancel function, `canceled` those whose context is done.
pub record Server : Type 0 where
  pub streams : List String
  pub canceled : List String

abbrev pub without_stream : String → List String → List String
without_stream id [] = []
without_stream id (j ∷ ids) = let rest = without_stream id ids in if j == id then rest else j ∷ rest

abbrev pub is_listed : String → List String → Bool
is_listed id [] = false
is_listed id (j ∷ ids) = if j == id then true else is_listed id ids

-- rpcErr, of an error that is there
unfoldable pub rpc_err : Error → Outcome
unfolding encode_provider_error
rpc_err (provider pe) =
    rpc_error
      (record { code = "-32000"; message = pe.message; payload = some (encode_provider_error pe) })
rpc_err (other text) = failure text

-- what `dispatch` does with an error that is no *Error
abbrev pub plain : Error → Outcome
plain (provider pe) = failure pe.message
plain (other text) = failure text

abbrev one_field : String → Json → Json
one_field k v = obj (field k v end)

-- What `handle` leaves behind: the server, the answer, and the stream that is now forwarded.
pub record Handled : Type 0 where
  pub server : Server
  pub answer : Outcome
  pub forward : Option (String × List StreamEvent)

abbrev reply : Server → Outcome → Handled
reply s o = record { server = s; answer = o; forward = none }

abbrev encoded : (Error → Outcome) → Json ⊎ Error → Outcome
encoded on_error (inl v) = success (some v)
encoded on_error (inr e) = on_error e

module _ (h : PluginHandler) (d : Decoders) where
  unfoldable pub handle_handshake : Option Json → Outcome
  handle_handshake params = elim (d.handshake params) [
    | bad e ↦ failure e
    | good req ↦ encoded plain (h.handshake req)
  ]

  unfoldable pub handle_health : Outcome
  handle_health = elim h.health [
    | some e ↦ plain e
    | none ↦ success (some (one_field "status" (str "ok")))
  ]

  unfoldable pub handle_models : Outcome
  handle_models = elim h.models [
    | inr e ↦ plain e
    | inl models ↦ success (some (one_field "models" models))
  ]

  unfoldable pub handle_execute : Option Json → Outcome
  unfolding rpc_err
  handle_execute params = elim (d.request params) [
    | bad e ↦ failure e
    | good req ↦ encoded rpc_err (h.complete req)
  ]

  -- `fresh` is the id that idgen.StreamID makes
  unfoldable pub handle_stream : String → Option Json → Server → Handled
  unfolding rpc_err
  handle_stream fresh params s = elim (d.request params) [
    | bad e ↦ reply s (failure e)
    | good req ↦ elim (h.stream req) [
      | inr e ↦
          reply
            (record {
              streams = without_stream fresh (fresh ∷ s.streams);
              canceled = fresh ∷ s.canceled;
            })
            (rpc_err e)
      | inl events ↦ record {
        server = record s { streams = fresh ∷ s.streams };
        answer = success (some (one_field "stream_id" (str fresh)));
        forward = some (fresh, events);
      }
    ]
  ]

  unfoldable pub handle_cancel : Option Json → Server → Handled
  handle_cancel params s = elim (d.stream_id params) [
    | bad e ↦ reply s (failure e)
    | good id ↦
        let s' = record s { canceled = id ∷ s.canceled } in
        let answer = success (some (one_field "ok" (bool true))) in
        if is_listed id s.streams then reply s' answer else reply s answer
  ]

  -- handle
  unfoldable pub handle : String → Request → Server → Handled
  unfolding handle_handshake handle_health handle_models handle_execute handle_stream handle_cancel
  handle fresh req s =
      if req.method == "plugin.handshake"
      then reply s (handle_handshake req.params)
      else if req.method == "plugin.health"
      then reply s handle_health
      else if req.method == "plugin.models"
      then reply s handle_models
      else if req.method == "completion.execute"
      then reply s (handle_execute req.params)
      else if req.method == "completion.stream"
      then handle_stream fresh req.params s
      else if req.method == "completion.cancel"
      then handle_cancel req.params s
      else reply s (
          rpc_error (record {
            code = "-32601";
            message = "method not found: " <> req.method;
            payload = none;
          }))

-- The event that closes a stream which has not ended by itself.
abbrev pub stop_event : StreamEvent
stop_event = record {
  typ = stream_end;
  text = none;
  tool_call = none;
  usage = none;
  finish_reason = "stop";
  error = none;
}

-- the loop of forwardStream, from its sequence number and `ended` on: the notifications' numbers and
-- events
unfoldable pub forward_from : ℕ → Bool → List StreamEvent → List (ℕ × StreamEvent)
forward_from seq ended [] = if ended then [] else (suc seq, stop_event) ∷ []
forward_from seq ended (ev ∷ evs) =
    (suc seq, ev) ∷ forward_from (suc seq) (ended || is_end ev.typ) evs

unfoldable pub forward_stream : List StreamEvent → List (ℕ × StreamEvent)
unfolding forward_from
forward_stream = forward_from 0 false

-- the deferred part of forwardStream
unfoldable pub end_forward : String → Server → Server
end_forward id s = record { streams = without_stream id s.streams; canceled = id ∷ s.canceled }
