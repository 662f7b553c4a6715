-- ===== src/Plugin/Calls.antt =====
-- internal/plugin/runtime.go: what the calls of an instance make of the connection's answer.
use providerapi.Prelude.{String, Option, none, some, if◌then◌else◌}
use providerapi.Dict.{Dict}
use providerapi.Protocol.Errors.{Error}
use providerapi.Plugin.Instance.{Instance, CallError, remote, local, decode_rpc_error}

-- The end of a call on the connection: what the plugin answered, or an error.
pub data Called {ℓ} (A : Type ℓ) : Type ℓ where
  replied : A → Called A
  broken : CallError → Called A

-- What the caller of an instance gets.
pub data Outcome {ℓ} (A : Type ℓ) : Type ℓ where
  returned : A → Outcome A
  failed : Error → Outcome A

-- Complete, and Stream up to its channel: the error is decoded
unfoldable pub outcome {ℓ} : {A : Type ℓ} → Called A → Outcome A
unfolding decode_rpc_error
outcome (replied a) = returned a
outcome (broken e) = failed (decode_rpc_error e)

abbrev pub error_text : CallError → String
error_text (remote e) = e.message
error_text (local text) = text

-- Health: `none` is no error
unfoldable pub health : Called (Dict String) → Instance → Option String
health (replied _) i = if i.connected then none else some "not connected"
health (broken e) i = if i.connected then some (error_text e) else some "not connected"
