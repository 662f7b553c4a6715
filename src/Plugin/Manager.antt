-- ===== src/Plugin/Manager.antt =====
-- internal/plugin/runtime.go: the manager that starts, finds and stops the instances.
pub mod Running
use providerapi.Prelude.{String, false, Option, none, some, List, [], ◌∷◌, map, if◌then◌else◌}
use providerapi.Text.{is_empty}
use providerapi.Dict.{Dict, get, put}
use providerapi.Config.{Config, ProviderInstance, PluginBinary, Credential}
use providerapi.Plugin.Instance.{Instance, Launch, start, stop}
use providerapi.Plugin.Streams.{no_streams}

-- The new Instance of StartAll.
unfoldable pub new_instance : String → ProviderInstance → Instance
unfolding no_streams
new_instance id inst = record {
  id = id;
  plugin = inst.plugin;
  manifest = none;
  healthy = false;
  stopped = false;
  last_error = "";
  running = false;
  connected = false;
  health_loop = false;
  on_trace = [];
  active = no_streams;
}

abbrev pub no_binary : PluginBinary
no_binary = record { command = ""; args = [] }

abbrev pub no_credential : Credential
no_credential = record { provider = ""; env = "" }

-- m[k], which is the zero value where the key is missing
abbrev get_or_zero {ℓ} : {V : Type ℓ} → V → String → Dict V → V
get_or_zero zero k m = elim (get k m) [ none ↦ zero | some v ↦ v ]

-- StopAll, as if all the processes ended at once: it waits for up to three seconds for each
unfoldable pub stop_all : Dict Instance → Dict Instance
unfolding stop
stop_all m = map (λ e. (e.0, stop e.1)) m

-- `launch` is how the start of the given binary with the given credential goes.
module _ (cfg : Config) (launch : String → PluginBinary → Credential → Launch) where
  unfoldable pub launch_of : String → ProviderInstance → Launch
  unfolding get
  launch_of id inst = launch id (get_or_zero no_binary inst.plugin cfg.plugins) (
      if is_empty inst.credential
      then no_credential
      else get_or_zero no_credential inst.credential cfg.credentials)

  -- the loop of StartAll: the instances, and the first error
  unfoldable pub start_each : Dict ProviderInstance → Dict Instance → Dict Instance × Option String
  unfolding new_instance start stop_all put launch_of
  start_each [] m = (m, none)
  start_each ((id, inst) ∷ rest) m =
      let (i, e) = start (launch_of id inst) (new_instance id inst) in
      let later = start_each rest (put id i m) in
      elim e [ none ↦ later | some text ↦ (stop_all m, some text) ]

  unfoldable pub start_all : Dict Instance × Option String
  unfolding start_each
  start_all = start_each cfg.providers []

-- Get: the instance, or the error
unfoldable pub get_instance : String → Dict Instance → Option Instance
unfolding get
get_instance id m = get id m

-- List
abbrev pub instances_of : Dict Instance → List Instance
instances_of m = map (λ e. e.1) m
