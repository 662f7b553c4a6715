-- ===== src/App.antt =====
-- internal/app/app.go: New and Run. The servers, which serve in the meantime, are their end: the context is
-- done, or one of them fails.
use providerapi.Prelude.{
  ℕ, String, Bool, true, false, Option, none, some, List, [], ◌∷◌, map, ◌⊎◌, inl, inr,
}
use providerapi.Prelude.Int.{ℤ}
use providerapi.Dict.{Dict}
use providerapi.Config.{Checked, valid, invalid, ConfigError, Config, PluginBinary, Credential}
use providerapi.Plugin.Instance.{Instance, Launch}
use providerapi.Plugin.Instance.Life.{Life, live_all}
use providerapi.Plugin.Manager.{start_all, stop_all}
use providerapi.Trace.Store.{Store, PluginRow, upsert_plugin}

-- The manager's instances, the database and whether it is open, and the gauges of health.
pub record App : Type 0 where
  pub instances : Dict Instance
  pub store : Store
  pub is_open : Bool
  pub gauges : List (String × ℕ)

-- New, with the errors of the data directory, the database and the traces' directory: the application, or
-- the error and whether the database is left open
unfoldable pub new_app :
    Option String → Option String → Option String → Store → App ⊎ (String × Bool)
new_app (some e) open_error trace_error st = inr (e, false)
new_app none (some e) trace_error st = inr (e, false)
new_app none none (some e) st = inr (e, false)
new_app none none none st = inl (record { instances = []; store = st; is_open = true; gauges = [] })

-- How Run ends: the context is done, with the error of closing the database, or a server fails.
pub data End : Type 0 where
  canceled : Option String → End
  server_failed : String → End

pub record Ran : Type 0 where
  pub app : App
  pub error : Option String

-- The instances behind what happens to them while Run serves; a watcher that still sleeps or starts a process then is
-- left out.
abbrev pub lived : (String → List Life) → Dict Instance → Dict Instance
lived lives m =
    map
      (λ e. (e.0, (live_all (lives e.0) (record { inst = e.1; sleeping = 0; starting = 0 })).inst))
      m

-- `lives` is what happens to each instance while Run serves.
module _ (now : ℤ) (pid : Instance → ℤ) (lives : String → List Life) where
  abbrev plugin_row : Instance → PluginRow
  plugin_row i = record {
    instance_id = i.id;
    plugin = i.plugin;
    version = elim i.manifest [ none ↦ "" | some m ↦ m.version ];
    protocol_version = elim i.manifest [ none ↦ "" | some m ↦ m.protocol_version ];
    healthy = i.healthy;
    last_seen = now;
    pid = pid i;
  }

  -- the loop of Run over the instances
  unfoldable pub record_plugins : Dict Instance → Store → Store
  unfolding upsert_plugin
  record_plugins [] st = st
  record_plugins ((id, i) ∷ m) st = record_plugins m (upsert_plugin (plugin_row i) st)

  abbrev pub serving : Dict Instance → App → App
  serving m a = record a {
    instances = lived lives m;
    store = record_plugins m a.store;
    gauges = map (λ e. (e.1.id, 1)) m;
  }

  abbrev pub halted : App → App
  halted a = record a { instances = stop_all a.instances }

  -- Run, from what StartAll gives
  unfoldable pub run_from : Dict Instance × Option String → End → App → Ran
  unfolding record_plugins stop_all
  run_from (m, some e) end a = record { app = record a { instances = m }; error = some e }
  run_from (m, none) (server_failed e) a = record { app = halted (serving m a); error = some e }
  run_from (m, none) (canceled close_error) a = record {
    app = halted (record (serving m a) { is_open = false });
    error = close_error;
  }

  -- Run
  unfoldable pub run : Config → (String → PluginBinary → Credential → Launch) → End → App → Ran
  unfolding start_all run_from
  run cfg launch end a = run_from (start_all cfg launch) end a

-- Serve: Run on the application that New gives, behind the configuration that Load gives. `text` is the text
-- of an error of Load.
unfoldable pub serve :
    (now : ℤ) (pid : Instance → ℤ) (lives : String → List Life)
    → Checked Config
    → (ConfigError → String)
    → (String → PluginBinary → Credential → Launch)
    → App ⊎ (String × Bool)
    → End
    → Option String
unfolding run
serve now pid lives (invalid e) text launch app end = some (text e)
serve now pid lives (valid cfg) text launch (inr (e, open_)) end = some e
serve now pid lives (valid cfg) text launch (inl a) end = (run now pid lives cfg launch end a).error
