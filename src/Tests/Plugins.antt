-- ===== src/Tests/Plugins.antt =====
-- A plugin that is started, answers, fails and is stopped.
use providerapi.Prelude.{
  String, ◌≡◌, refl, true, false, ◌||◌, none, some, List, [], ◌∷◌, ◌++◌, arith, if◌then◌else◌,
}
use providerapi.Text.{is_empty, ◌<>◌}
use providerapi.Config.{PluginBinary, Credential}
use providerapi.Protocol.Types.{ProviderError, Manifest}
use providerapi.Protocol.Errors.{new_provider_error, provider}
use providerapi.Protocol.Errors.Wire.{Fits}
use providerapi.Plugin.Instance.{Instance, Launch, handshake, plugin_env, start}
use providerapi.Plugin.Instance.Environment.{select, select-plugin_env}
use providerapi.Plugin.Instance.Life.{
  Life, exits, wakes, starts, ticks, stops, Watched, IsOver, live, live_all, live_all-stop,
}
use providerapi.Plugin.Manager.{new_instance}
use providerapi.JsonRpc.{
  Request, RpcError, number, Handler, Conn, new_conn, dispatch, remote_error, response, end_call,
  call, run,
}
use providerapi.JsonRpc.Calls.{IsSound, new_conn-IsSound, run-IsSound}
use providerapi.JsonRpc.Replies.{result_of, answer_reaches_caller}
use providerapi.Sdk.{rpc_err}
use providerapi.Sdk.Errors.{Arrives, decode_rpc_error-rpc_err}

abbrev manifest : Manifest
manifest = record {
  protocol_version = "1";
  id = "compat";
  version = "0.1";
  capabilities = record { stream = true; tools = true; reasoning = true };
}

abbrev pub launch : String → PluginBinary → Credential → Launch
launch _ _ _ = handshake manifest

abbrev credential : Credential
credential = record { provider = ""; env = "MY_KEY" }

abbrev getenv : String → String
getenv _ = "secret"

abbrev environ : List String
environ = "HOME=/root" ∷ "PROVIDERAPI_CREDENTIAL=other" ∷ []

select-plugin_env_example :
    (select true (plugin_env environ getenv credential) ≡ (
      if is_empty credential.env || is_empty (getenv credential.env)
      then []
      else ("PROVIDERAPI_CREDENTIAL=" <> getenv credential.env) ∷ []))
    × (select false (plugin_env environ getenv credential) ≡ select false environ)
select-plugin_env_example = select-plugin_env environ getenv credential

abbrev instance_ : Instance
instance_ =
    (start (handshake manifest)
      (new_instance "main" (record { plugin = "compat"; credential = ""; config = none }))).0

abbrev watched : Watched
watched = record { inst = instance_; sleeping = 1; starting = 0 }

abbrev history : List Life
history = wakes ∷ exits none ∷ starts (handshake manifest) ∷ ticks true ∷ []

live_all-stop_example : IsOver (live_all history (live stops watched))
unfolding start new_instance
live_all-stop_example = live_all-stop history watched refl refl

abbrev failure_ : ProviderError
failure_ = new_provider_error 429 "rate_limited" "slow down"

abbrev refusing : Handler
refusing _ = rpc_err (provider failure_)

abbrev asked : Request
asked = record {
  id = number 1;
  method = "completion.execute";
  params = none;
  result = none;
  error = none;
}

abbrev waiting_conn : Conn
waiting_conn = run none false (call "completion.execute" none ∷ []) new_conn

waiting_conn-IsSound : IsSound waiting_conn
waiting_conn-IsSound =
    run-IsSound none false (call "completion.execute" none ∷ []) new_conn new_conn-IsSound

answer_reaches_caller_example :
    (w : Request) × ((dispatch (some refusing) false asked new_conn).wire ≡ new_conn.wire ++ w ∷ [])
    × (end_call 1 response (dispatch none false w waiting_conn)
        ≡ some (dispatch none false w waiting_conn, result_of (refusing asked)))
unfolding new_conn run
answer_reaches_caller_example =
    answer_reaches_caller refusing asked 1 false new_conn none false waiting_conn refl refl refl
      refl waiting_conn-IsSound

failure_-Fits : Fits failure_
unfolding new_provider_error
failure_-Fits = record { http = omega arith; upstream = omega arith }

decode_rpc_error-rpc_err_example :
    (w : Request) × (e : RpcError) × ((dispatch (some refusing) false asked new_conn).wire
      ≡ new_conn.wire ++ w ∷ [])
    × (end_call 1 response (dispatch none false w waiting_conn)
        ≡ some (dispatch none false w waiting_conn, remote_error e))
    × Arrives failure_ e
unfolding new_conn run new_provider_error
decode_rpc_error-rpc_err_example =
    decode_rpc_error-rpc_err failure_ refusing asked 1 false new_conn none false waiting_conn
      failure_-Fits refl refl refl refl refl refl waiting_conn-IsSound
