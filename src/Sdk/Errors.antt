-- ===== src/Sdk/Errors.antt =====
-- sdk/plugin/server.go and internal/plugin/runtime.go: a plugin's error on its way to the host.
use providerapi.Prelude.{
  ℕ, ◌≡◌, refl, ap, ◌∙◌, String, Bool, true, false, Option, some, [], ◌∷◌, ◌++◌,
}
use providerapi.Text.{is_empty}
use providerapi.Protocol.Types.{ProviderError}
use providerapi.Protocol.Errors.{provider}
use providerapi.JsonRpc.{
  Request, RpcError, number, Handler, Conn, is_pending, dispatch, remote_error, response, end_call,
}
use providerapi.Protocol.Errors.Wire.{encode_provider_error, Fits, decode-encode_provider_error}
use providerapi.JsonRpc.Calls.{IsSound}
use providerapi.JsonRpc.Replies.{answer_reaches_caller, result_of}
use providerapi.Plugin.Instance.{read_error, decode_rpc_error, remote, with_status}
use providerapi.Sdk.{rpc_err}

read_error-some :
    (text : String) (pe : ProviderError)
    → is_empty pe.message ≡ false
    → read_error text (some pe) ≡ provider (with_status pe)
unfolding read_error
read_error-some text pe said = rw said refl

-- What decodeRPCError makes of an RPC error whose data is the JSON of a provider error.
pub decode_rpc_error-encode_provider_error :
    (code text : String) (pe : ProviderError)
    → Fits pe
    → is_empty pe.message ≡ false
    → decode_rpc_error
        (remote (record { code = code; message = text; payload = some (encode_provider_error pe) }))
      ≡ provider (with_status pe)
unfolding decode_rpc_error
decode_rpc_error-encode_provider_error code text pe fits said =
    ap (read_error text) (decode-encode_provider_error pe fits) ∙ read_error-some text pe said

-- What the host makes of a plugin's error.
abbrev pub Arrives : ProviderError → RpcError → Type 0
Arrives pe e = decode_rpc_error (remote e) ≡ provider (with_status pe)

-- A provider error with a message, whose statuses are ints of 64 bits and not negative, that a handler returns by
-- rpcErr reaches the caller whole: it is written as JSON into the answer, which ends the call with an RPC error,
-- and decodeRPCError reads in it every field of that provider error, with 502 for a status that is not set.
pub decode_rpc_error-rpc_err :
    (pe : ProviderError) (h : Handler) (req : Request) (n : ℕ) (l : Bool) (c : Conn)
    (client : Option Handler) (k : Bool) (d : Conn)
    → Fits pe
    → is_empty pe.message ≡ false
    → h req ≡ rpc_err (provider pe)
    → is_empty req.method ≡ false
    → req.id ≡ number n
    → c.closed ≡ false
    → is_pending n d.pending ≡ true
    → IsSound d
    → (w : Request) × (e : RpcError) × ((dispatch (some h) l req c).wire ≡ c.wire ++ w ∷ [])
      × (end_call n response (dispatch client k w d) ≡ some (dispatch client k w d, remote_error e))
      × Arrives pe e
unfolding rpc_err
decode_rpc_error-rpc_err pe h req n l c client k d fits said returned named numbered live waits
      sound =
    let (w, wire, ended) =
      answer_reaches_caller h req n l c client k d named numbered live waits sound in
    let e : RpcError = record {
      code = "-32000";
      message = pe.message;
      payload = some (encode_provider_error pe);
    } in
    (
      w,
      e,
      wire,
      ended ∙ ap (λ o. some (dispatch client k w d, result_of o)) returned,
      decode_rpc_error-encode_provider_error "-32000" pe.message pe fits said,
    )
