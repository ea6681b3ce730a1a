-- ===== src/Plugin/Tests.antt =====
-- internal/hivemind/service/plugin: runs of the framework, and the theorems at concrete inputs.
use echoryn.Prelude.{
  Text, codes, lookup, ◌≡◌, refl, [], ◌∷◌, ◌++◌, map, reverse, none, some, false, same,
}
use echoryn.Plugin.Types.{Definition, Plugin, server_start, server_stop}
use echoryn.Plugin.Slots.{is_free, desired_of}
use echoryn.Plugin.Registry.{fire_hooks}
use echoryn.Plugin.Registry.Consistency.{IsConsistent, new_registry-IsConsistent}
use echoryn.Plugin.Framework.{
  Framework, RegisteredFactory, made, new_framework, apply_to, init, start, stop, hook_runs,
  plugin_starts, service_starts,
}
use echoryn.Plugin.Framework.Loading.{wanted_names, init_correct}
use echoryn.Plugin.Framework.Order.{starts_of, undo, stop-start}

abbrev plugin : Text → Plugin
plugin name = record {
  name = name;
  init = none;
  lifecycle = some (record { start_error = none; stop_error = none });
  tools = record { name = codes "search"; description = [] } ∷ [];
  hooks = (server_start, record { name = name; error = some (codes "late") }) ∷ [];
  services = record { name = codes "watch"; start_error = none; stop_error = none } ∷ [];
  cli_registrars = [];
  prompt_sections = [];
  prompt_mutators = [];
}

abbrev factory : Text → Text → RegisteredFactory
factory id kind = record {
  definition = record { id = id; name = id; kind = kind; description = [] };
  factory = made (plugin id);
}

abbrev prepared : Framework
prepared =
    (apply_to
      (factory (codes "other") (codes "memory")
        ∷ factory (codes "memory-core") (codes "memory")
        ∷ factory (codes "web") (codes "general")
        ∷ [])
      (new_framework [])).0

-- Of the two plugins for the memory only the default one is loaded.
loaded : (init prepared).0.registry.plugin_order ≡ codes "memory-core" ∷ codes "web" ∷ []
unfolding init apply_to same
loaded = refl

started :
    (start (init prepared).0).0
    ≡ plugin_starts (codes "memory-core")
      ∷ plugin_starts (codes "web")
      ∷ service_starts (codes "watch")
      ∷ service_starts (codes "watch")
      ∷ map hook_runs (fire_hooks server_start (init prepared).0.registry).0
unfolding init apply_to start same
started = refl

prepared-IsConsistent : IsConsistent prepared.slot_config prepared.registry
unfolding apply_to same
prepared-IsConsistent = new_registry-IsConsistent []

init_correct_example :
    IsConsistent prepared.slot_config (init prepared).0.registry
    × ((init prepared).1 ≡ none
        → (init prepared).0.registry.plugin_order
          ≡ prepared.registry.plugin_order
            ++ wanted_names prepared.slot_config (map (λ e. e.1) prepared.factories))
    × ((n : Text) (d : Definition)
        → lookup n (init prepared).0.registry.definitions ≡ some d
        → is_free d.kind ≡ false
        → d.id ≡ desired_of prepared.slot_config d.kind)
init_correct_example = init_correct prepared prepared-IsConsistent

started_well : (start (init prepared).0).1 ≡ none
unfolding init apply_to start same
started_well = refl

stop-start_example :
    ((start (init prepared).0).0
      ≡ starts_of (init prepared).0.registry
        ++ map hook_runs (fire_hooks server_start (init prepared).0.registry).0)
    × (stop (init prepared).0
        ≡ map hook_runs (fire_hooks server_stop (init prepared).0.registry).0
          ++ reverse (map undo (starts_of (init prepared).0.registry)))
stop-start_example = stop-start (init prepared).0 started_well
