-- ===== src/Compat/Exchange.antt =====
-- plugins/openai-compat/main.go: Handshake, and Complete and Stream up to the answer of the upstream, with
-- the audit events that they send before they return.
pub mod Errors
use providerapi.Prelude.{
  ℕ, String, Bool, true, false, Option, none, some, List, [], ◌∷◌, ◌++◌, leb, eqb, ◌||◌, ◌⊎◌, inl,
  inr, if◌then◌else◌,
}
use providerapi.Prelude.Int.{ℤ}
use providerapi.Text.{is_empty, trim_space, codes, ◌<>◌}
use providerapi.Dict.{Dict}
use providerapi.Json.{Json, str, obj, Fields, end, field, put_field}
use providerapi.Redact.{RawJson, empty, malformed, json}
use providerapi.Protocol.Types.{
  CompletionRequest, CompletionResponse, StreamEvent, ProviderError, Manifest,
}
use providerapi.Protocol.Errors.{Error, provider, other}
use providerapi.Plugin.Instance.{protocol_version}
use providerapi.Sdk.Audit.{ProviderHttpAudit, audit_request, audit_response}
use providerapi.Sdk.{Decoded, good, bad}
use providerapi.Compat.Body.{InstanceConfig, Built, body, refused, build_body}
use providerapi.Compat.Http.{
  ErrorEnv, TransportError, request_headers, request_url, header_map, parse_upstream_error,
  map_transport,
}
use providerapi.Compat.Chunk.{
  ChunkEnv, CompletionEnv, Completion, completed, failed, parse_completion,
}
use providerapi.Compat.Stream.{stream_upstream}

abbrev pub manifest : Manifest
manifest = record {
  protocol_version = protocol_version;
  id = "openai-compat";
  version = "0.1.0";
  capabilities = record { stream = true; tools = true; reasoning = true };
}

-- What Handshake leaves: the configuration and the manifest, or an error's text.
pub data Ready : Type 0 where
  ready : InstanceConfig → Manifest → Ready
  rejected : String → Ready

abbrev no_config : InstanceConfig
no_config = record { base_url = ""; extra_headers = []; reasoning_map = [] }

abbrev with_base : InstanceConfig → Ready
with_base cfg =
    if is_empty cfg.base_url then rejected "config.base_url is required" else ready cfg manifest

-- Handshake, of a configuration that is not there or as encoding/json decodes it
unfoldable pub handshake : Option (Decoded InstanceConfig) → Ready
handshake none = with_base no_config
handshake (some (bad e)) = rejected ("invalid plugin config: " <> e)
handshake (some (good cfg)) = with_base cfg

-- A notification "plugin.trace.event": an HTTP audit, or an object.
pub data Audit : Type 0 where
  http : ProviderHttpAudit → Audit
  note : Fields → Audit

-- (*AuditEmitter).ProviderStreamEvent
abbrev pub stream_note : String → String → Fields → Audit
stream_note req_id kind extra =
    note (put_field "type" (str kind) (put_field "request_id" (str req_id) extra))

-- What the upstream answers; `lines` are the body's lines for a stream, each with whether the context is
-- done when it is read; `scan_err` is what the scanner's Err gives where the loop over the lines is left, and
-- `canceled` whether the context is done then.
pub record Response : Type 0 where
  pub status : ℕ
  pub headers : Dict (List String)
  pub req_id : String
  pub raw : String
  pub lines : List (Bool × String)
  pub scan_err : Option String
  pub canceled : Bool

-- The end of http.Client.Do.
pub data Did : Type 0 where
  responded : Response → Did
  unreachable : TransportError → Did

-- What a handler returns, and the audits that were sent by then.
pub record Exchanged {ℓ} (A : Type ℓ) : Type ℓ where
  pub result : A ⊎ Error
  pub audits : List Audit

-- What lies outside: decimal texts, the token, the decoders of encoding/json, the error of
-- http.NewRequest and the upstream.
pub record Upstream : Type 0 where
  pub decimal : ℤ → String
  pub digits : ℕ → String
  pub key : String
  pub parse : String → Option Json
  pub error_env : String → Decoded ErrorEnv
  pub completion_env : String → Decoded CompletionEnv
  pub chunk_env : String → Decoded ChunkEnv
  pub new_error : Option String
  pub ask : Fields → Did

module _ (u : Upstream) (cfg : InstanceConfig) (req : CompletionRequest) where
  -- trimJSON
  unfoldable pub trim_json : String → RawJson
  unfolding trim_space
  trim_json raw =
      let s = trim_space raw in
      elim (codes s) [
        | [] ↦ json (obj end)
        | c ∷ _ ↦
            if eqb c b'{' || eqb c b'['
            then elim (u.parse s) [ some v ↦ json v | none ↦ malformed s ]
            else json (str s)
      ]

  abbrev pub asked : Fields → Audit
  asked b = http (
      audit_request req.request_id "POST" (request_url cfg) (request_headers u.key cfg)
        (json (obj b)))

  abbrev pub told : Response → RawJson → Audit
  told r raw =
      http
        (audit_response req.request_id "POST" (request_url cfg) r.status (header_map r.headers) raw)

  abbrev pub failed_by : TransportError → Fields → Error × List Audit
  failed_by t b =
      let pe = map_transport (some t) in
      (
        provider pe,
        asked b
            ∷ stream_note req.request_id "provider_error" (field "message" (str pe.message) end)
            ∷ [],
      )

  abbrev pub upstream_error : Response → ProviderError
  upstream_error r = parse_upstream_error u.digits r.status r.raw (u.error_env r.raw) r.req_id

  abbrev result_of : Completion → CompletionResponse ⊎ Error
  result_of (completed c) = inl c
  result_of (failed pe) = inr (provider pe)

  -- Complete behind buildBody and newRequest
  unfoldable pub finish_complete : Fields → Did → Exchanged CompletionResponse
  unfolding audit_request audit_response map_transport parse_upstream_error parse_completion
  finish_complete b (unreachable t) = record {
    result = inr (failed_by t b).0;
    audits = (failed_by t b).1;
  }
  finish_complete b (responded r) = record {
    result =
        if leb 400 r.status
        then inr (provider (upstream_error r))
        else result_of (parse_completion req (u.completion_env r.raw));
    audits = asked b ∷ told r (trim_json r.raw) ∷ [];
  }

  -- Complete behind buildBody, with the error of newRequest, if any
  unfoldable pub complete_built : Built → Option String → Exchanged CompletionResponse
  unfolding finish_complete
  complete_built (refused pe) new_error = record { result = inr (provider pe); audits = [] }
  complete_built (body b) (some e) = record { result = inr (other e); audits = [] }
  complete_built (body b) none = finish_complete b (u.ask b)

  -- Complete
  unfoldable pub complete : Exchanged CompletionResponse
  unfolding build_body complete_built
  complete = complete_built (build_body u.decimal cfg req false) u.new_error

  -- Stream behind buildBody and newRequest
  unfoldable pub finish_stream : Fields → Did → Exchanged (List StreamEvent)
  unfolding audit_request audit_response map_transport parse_upstream_error stream_upstream
  finish_stream b (unreachable t) = record {
    result = inr (failed_by t b).0;
    audits = (failed_by t b).1;
  }
  finish_stream b (responded r) =
      if leb 400 r.status
      then record {
        result = inr (provider (upstream_error r));
        audits = asked b ∷ told r (trim_json r.raw) ∷ [];
      }
      else record {
        result = inl (stream_upstream u.chunk_env r.lines r.scan_err r.canceled).sent;
        audits = asked b ∷ told r empty ∷ [];
      }

  -- Stream behind buildBody, with the error of newRequest, if any
  unfoldable pub stream_built : Built → Option String → Exchanged (List StreamEvent)
  unfolding finish_stream
  stream_built (refused pe) new_error = record { result = inr (provider pe); audits = [] }
  stream_built (body b) (some e) = record { result = inr (other e); audits = [] }
  stream_built (body b) none = finish_stream b (u.ask b)

  -- Stream
  unfoldable pub stream : Exchanged (List StreamEvent)
  unfolding build_body stream_built
  stream = stream_built (build_body u.decimal cfg req true) u.new_error
