-- ===== src/Plugin/Instance.antt =====
-- internal/plugin/runtime.go: an instance's life cycle, its trace handlers, the environment of its
-- process and the errors of its calls.
pub mod Life
pub mod Environment
use providerapi.Prelude.{
  ℕ, String, Bool, true, false, not, ◌&&◌, Option, none, some, List, [], ◌∷◌, ◌++◌, eqb, ◌==◌,
  if◌then◌else◌,
}
use providerapi.Text.{codes, has_prefix, is_empty, ◌<>◌}
use providerapi.Dict.{Dict, get, put, remove}
use providerapi.Config.{Credential}
use providerapi.Protocol.Types.{ProviderError, Manifest}
use providerapi.Protocol.Errors.{Error, provider, plugin_crash, new_provider_error}
use providerapi.Protocol.Errors.Wire.{decode_provider_error}
use providerapi.Protocol.Content.{◌>>=◌}
use providerapi.JsonRpc.{RpcError}
use providerapi.Plugin.Streams.{Streams, no_streams, fail_active_streams}

-- The fields of Instance that change; a trace handler is known by a number.
pub record Instance : Type 0 where
  pub id : String
  pub plugin : String
  pub manifest : Option Manifest
  pub healthy : Bool
  pub stopped : Bool
  pub last_error : String
  pub running : Bool
  pub connected : Bool
  pub health_loop : Bool
  pub on_trace : Dict ℕ
  pub active : Streams

-- SetTraceHandler, where `none` is a nil handler
unfoldable pub set_trace_handler : String → Option ℕ → Instance → Instance
unfolding put remove
set_trace_handler request_id none i = record i { on_trace = remove request_id i.on_trace }
set_trace_handler request_id (some h) i = record i { on_trace = put request_id h i.on_trace }

-- onNotify for "plugin.trace.event": the handler that is called, if any
unfoldable pub trace_target : String → Instance → Option ℕ
unfolding get
trace_target request_id i = get request_id i.on_trace

-- How far Start comes: the process and the socket, the connection, the handshake with its manifest.
pub data Launch : Type 0 where
  no_process no_socket no_connection : String → Launch
  no_handshake : String → Launch
  handshake : Manifest → Launch

abbrev pub protocol_version : String
protocol_version = "1"

-- Start: the instance and the error. A process that was started and is not used is killed.
unfoldable pub start : Launch → Instance → Instance × Option String
unfolding no_streams
start (no_process e) i = (record i { active = no_streams }, some e)
start (no_socket e) i = (record i { active = no_streams; running = false }, some e)
start (no_connection e) i = (record i { active = no_streams; running = false }, some e)
start (no_handshake e) i =
    (record i { active = no_streams; running = false; connected = true }, some e)
start (handshake m) i =
    let ready = record i { active = no_streams; connected = true } in
    if not (m.protocol_version == protocol_version) && not (is_empty m.protocol_version)
    then (
      record ready { running = false },
      some ("plugin " <> (i.id <> (" protocol " <> (m.protocol_version <> " unsupported")))),
    )
    else (
      record ready { manifest = some m; healthy = true; running = true; health_loop = true },
      none,
    )

-- watch, up to its sleep: the process has exited with an error or with none. True: a restart follows.
unfoldable pub process_exited : Option String → Instance → Instance × Bool
unfolding fail_active_streams plugin_crash
process_exited wait_err i =
    if i.stopped then (record i { healthy = false; running = false }, false) else (
      record i {
        healthy = false;
        running = false;
        last_error = elim wait_err [ none ↦ "plugin process crashed" | some e ↦ e ];
        active = fail_active_streams (plugin_crash "") i.active;
      },
      true,
    )

-- one tick of healthLoop; `stopCh` is closed when `stopped` is set
unfoldable pub health_tick : Bool → Instance → Instance
health_tick answered i = if i.stopped then i else record i { healthy = i.connected && answered }

-- Stop
unfoldable pub stop : Instance → Instance
unfolding fail_active_streams new_provider_error
stop i = if i.stopped then i else record i {
  stopped = true;
  last_error = "";
  active = fail_active_streams (new_provider_error 499 "plugin_stopped" "plugin stopped") i.active;
  running = false;
}

-- A signal, to the process or to its group.
pub data Signal : Type 0 where
  group_term process_term group_kill process_kill : Signal

-- A process: whether its group is found, whether it exits within three seconds, and whether the group is
-- found behind them.
pub record Process : Type 0 where
  pub has_group : Bool
  pub exits : Bool
  pub has_group_later : Bool

-- kill: the signals that are sent
unfoldable pub kill : Option Process → List Signal
kill none = []
kill (some p) =
    let first = if p.has_group then group_term else process_term in
    let last = if p.has_group_later then group_kill else process_kill in
    if p.exits then first ∷ [] else first ∷ last ∷ []

abbrev pub with_status : ProviderError → ProviderError
with_status pe = if eqb pe.http_status 0 then record pe { http_status = 502 } else pe

-- An error of a call: of the plugin, by the connection, or another.
pub data CallError : Type 0 where
  remote : RpcError → CallError
  local : String → CallError

-- what becomes of a remote error with this text, from its data as it is decoded
unfoldable pub read_error : String → Option ProviderError → Error
unfolding new_provider_error
read_error text none = provider (new_provider_error 502 "provider_error" text)
read_error text (some pe) =
    if is_empty pe.message
    then provider (new_provider_error 502 "provider_error" text)
    else provider (with_status pe)

-- decodeRPCError, of an error that is there
unfoldable pub decode_rpc_error : CallError → Error
unfolding new_provider_error decode_provider_error read_error
decode_rpc_error (local text) = provider (new_provider_error 502 "provider_error" text)
decode_rpc_error (remote e) = read_error e.message (e.payload >>= decode_provider_error)

abbrev pub credential_prefix : String
credential_prefix = "PROVIDERAPI_CREDENTIAL="

unfoldable pub is_credential : String → Bool
is_credential e = has_prefix (codes e) (codes credential_prefix)

-- the loop over the environment
unfoldable pub scrub : List String → List String
scrub [] = []
scrub (e ∷ env) = let rest = scrub env in if is_credential e then rest else e ∷ rest

-- pluginEnv, where `getenv` reads the host's environment and is empty for what is not there
unfoldable pub plugin_env : List String → (String → String) → Credential → List String
unfolding scrub
plugin_env environ getenv cred =
    if is_empty cred.env
    then scrub environ
    else if is_empty (getenv cred.env)
    then scrub environ
    else scrub environ ++ (credential_prefix <> getenv cred.env) ∷ []
