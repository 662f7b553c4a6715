-- ===== src/Compat/Exchange/Errors.antt =====
-- plugins/openai-compat/main.go, sdk/plugin/server.go, internal/plugin/runtime.go and internal/api/openai.go:
-- an upstream's failure on its way to the client.
use Prim.Native.String.append
use providerapi.Prelude.{
  ℕ, ◌≤◌, String, ◌≡◌, refl, ap, ◌∙◌, Bool, true, false, inl, inr, leb, eqb, Bool-cases, arith,
  some, if◌then◌else◌,
}
use providerapi.Text.{is_empty, trim_space, ◌<>◌}
use providerapi.Dict.{Dict}
use providerapi.Json.{obj, Fields, end, field}
use providerapi.JsonRpc.{RpcError, rpc_error}
use providerapi.Protocol.Types.{CompletionRequest, ProviderError}
use providerapi.Protocol.Errors.{provider, map_provider_status, status_code}
use providerapi.Protocol.Errors.Wire.{encode_provider_error, Fits}
use providerapi.Text.Decimal.{max_int}
use providerapi.Sdk.Errors.{decode_rpc_error-encode_provider_error}
use providerapi.Sdk.{Decoded, good, bad, rpc_err}
use providerapi.Plugin.Instance.{with_status, remote, decode_rpc_error}
use providerapi.Trace.Session.{Session}
use providerapi.Api.Chunks.{openai_error, status_or}
use providerapi.Api.Request.{Outside, Incoming, answer, write_error}
use providerapi.Api.Handler.{call_failed}
use providerapi.Compat.Body.{InstanceConfig}
use providerapi.Compat.Http.{ErrorEnv, parse_upstream_error}
use providerapi.Compat.Exchange.{
  Upstream, Response, responded, finish_complete, finish_stream, upstream_error,
}

-- What mapping an upstream's status promises of the error.
record Mapped (status : ℕ) (pe : ProviderError) : Type 0 where
  http : pe.http_status ≡ (status_code status).0
  set : eqb pe.http_status 0 ≡ false
  said : is_empty pe.message ≡ false
  fits : Fits pe

is_empty-append : (s t : String) → is_empty s ≡ false → is_empty (s <> t) ≡ false
is_empty-append String.[] t h = cc
is_empty-append (String.◌∷◌ c s) t h = ap is_empty (append.cons c s t)

status_code-set : (status : ℕ) → eqb (status_code status).0 0 ≡ false
unfolding status_code
status_code-set status = ground arith

status_code-small : (status : ℕ) → (status_code status).0 ≤ max_int
unfolding status_code
status_code-small status = ground arith

map_provider_status-Mapped :
    (digits : ℕ → String) (status : ℕ) (message code id : String)
    → status ≤ max_int
    → Mapped status (map_provider_status digits status message code id)
unfolding map_provider_status
map_provider_status-Mapped digits status message code id int = record {
  fits = record { http = status_code-small status; upstream = int };
  http = refl;
  set = status_code-set status;
  said = elim (Bool-cases (is_empty message)) [
    | inl none_ ↦ rw none_ (is_empty-append "upstream returned HTTP " (digits status) refl)
    | inr some_ ↦ rw some_ some_
  ];
}

either-Mapped :
    (status : ℕ) (b : Bool) {x y : ProviderError}
    → Mapped status x
    → Mapped status y
    → Mapped status (if b then x else y)
either-Mapped status true m n = m
either-Mapped status false m n = n

parse_upstream_error-Mapped :
    (digits : ℕ → String) (status : ℕ) (raw : String) (env : Decoded ErrorEnv) (id : String)
    → status ≤ max_int
    → Mapped status (parse_upstream_error digits status raw env id)
unfolding parse_upstream_error
parse_upstream_error-Mapped digits status raw (bad e) id int =
    map_provider_status-Mapped digits status (trim_space raw) "" id int
parse_upstream_error-Mapped digits status raw (good env) id int =
    either-Mapped status (is_empty env.message)
      (map_provider_status-Mapped digits status (trim_space raw) "" id int)
      (map_provider_status-Mapped digits status env.message env.code id int)

with_status-set : (pe : ProviderError) → eqb pe.http_status 0 ≡ false → with_status pe ≡ pe
with_status-set pe h = ground (arith, h)

status_or-set :
    (pe : ProviderError) → eqb pe.http_status 0 ≡ false → status_or (some pe) 502 ≡ pe.http_status
unfolding status_or
status_or-set pe h = ground (arith, h)

write_error-Mapped :
    (status : ℕ) (pe : ProviderError)
    → Mapped status pe
    → write_error pe
      ≡ answer (status_code status).0 (obj (field "error" (openai_error (some pe)) end))
unfolding write_error
write_error-Mapped status pe m =
    ap (λ n. answer n (obj (field "error" (openai_error (some pe)) end)))
      (status_or-set pe m.set ∙ m.http)

decode_rpc_error-Mapped :
    (status : ℕ) (pe : ProviderError)
    → Mapped status pe
    → (e : RpcError) × (rpc_err (provider pe) ≡ rpc_error e)
      × (decode_rpc_error (remote e) ≡ provider pe)
unfolding rpc_err
decode_rpc_error-Mapped status pe m = (
  record { code = "-32000"; message = pe.message; payload = some (encode_provider_error pe) },
  refl,
  decode_rpc_error-encode_provider_error "-32000" pe.message pe m.fits m.said
      ∙ ap provider (with_status-set pe m.set),
)

module _ (u : Upstream) (cfg : InstanceConfig) (req : CompletionRequest) (o : Outside)
    (i : Incoming) where
  -- What becomes of an answer of the upstream whose status is an error: both calls of the plugin end with one
  -- provider error, which reaches the host through rpcErr and decodeRPCError, and the client is
  -- answered with it and with the status that the upstream's is mapped to.
  pub record Reported (b : Fields) (r : Response) (handlers : Dict ℕ) (s : Session) : Type 0 where
    pub by_complete :
        (finish_complete u cfg req b (responded r)).result
        ≡ inr (provider (upstream_error u cfg req r))
    pub by_stream :
        (finish_stream u cfg req b (responded r)).result
        ≡ inr (provider (upstream_error u cfg req r))
    pub rpc : RpcError
    pub sent : rpc_err (provider (upstream_error u cfg req r)) ≡ rpc_error rpc
    pub answered :
        (call_failed o i (decode_rpc_error (remote rpc)) handlers s).reply
        ≡ answer
            (status_code r.status).0
            (obj (field "error" (openai_error (some (upstream_error u cfg req r))) end))

  -- Where the upstream answers with a status of 400 or more, an int of 64 bits, both calls of the plugin end with
  -- the error that parseUpstreamError makes of it; rpcErr writes its JSON into an RPC error, decodeRPCError reads
  -- it back, and the client is answered with the error, under the status that the upstream's status is mapped to.
  pub finish_complete-Reported :
      (b : Fields) (r : Response) (handlers : Dict ℕ) (s : Session)
      → leb 400 r.status ≡ true
      → r.status ≤ max_int
      → Reported b r handlers s
  unfolding finish_complete finish_stream call_failed
  finish_complete-Reported b r handlers s failing int =
      let pe = upstream_error u cfg req r in
      let m =
        parse_upstream_error-Mapped u.digits r.status r.raw (u.error_env r.raw) r.req_id int in
      let (e, sent, decoded) = decode_rpc_error-Mapped r.status pe m in
      record {
        by_complete = rw failing refl;
        by_stream = rw failing refl;
        rpc = e;
        sent = sent;
        answered = rw decoded (write_error-Mapped r.status pe m);
      }
