-- ===== src/Plugin/Framework.antt =====
-- internal/hivemind/service/plugin/framework.go and intree.go: the loading of plugins, and their start and stop. The map of
-- factories is ranged over in the order of the list, which is open in Go. The effects outside are a list.
pub mod Loading
pub mod Order
use echoryn.Prelude.{
  reverse, reverse-append, map-append, map-reverse, Text, codes, same, is_empty, Assoc, lookup,
  insert, Bool, true, false, not, ◌||◌, List, [], ◌∷◌, ◌++◌, map, Option, none, some, if◌then◌else◌,
}
use echoryn.Plugin.Types.{
  Definition, server_start, server_stop, HookHandler, ServiceDefinition, Registration, a_tool,
  a_hook, a_service, a_cli, Plugin, Lifecycle,
}
use echoryn.Plugin.Slots.{SlotConfig, is_free, resolve_slot}
use echoryn.Plugin.Registry.{
  Registry, new_registry, register_all, register_plugin, get_plugin, get_services, plugin_names,
  fire_hooks,
}
use echoryn.Prompt.Pipeline.{Pipeline, register_section, register_mutator}
use echoryn.Prompt.Types.{PromptSection, PromptMutator}

-- A factory with its arguments and the handle: what it makes, or its error.
pub data Made : Type 0 where
  made : Plugin → Made
  not_made : Text → Made

pub record RegisteredFactory : Type 0 where
  pub definition : Definition
  pub factory : Made

pub record Framework : Type 0 where
  pub registry : Registry
  pub slot_config : SlotConfig
  pub factories : Assoc RegisteredFactory
  pub prompt_pipeline : Option Pipeline

-- Config.Complete and CompletedConfig.New.
abbrev pub new_framework : SlotConfig → Framework
new_framework config = record {
  registry = new_registry;
  slot_config = config;
  factories = [];
  prompt_pipeline = none;
}

-- RegisterFactory; `none` is that the id is taken.
unfoldable pub register_factory : Definition → Made → Framework → Option Framework
unfolding lookup insert
register_factory def factory f = elim (lookup def.id f.factories) [
  | some _ ↦ none
  | none ↦ some (record f {
    factories = insert def.id (record { definition = def; factory = factory }) f.factories;
  })
]

-- InTreeRegistry.ApplyTo: the framework reached, and whether all entries were registered.
unfoldable pub apply_to : List RegisteredFactory → Framework → Framework × Bool
unfolding register_factory
apply_to [] f = (f, true)
apply_to (entry ∷ entries) f = elim (register_factory entry.definition entry.factory f) [
  | none ↦ (f, false)
  | some f' ↦ apply_to entries f'
]

unfoldable pub register_sections : List PromptSection → Pipeline → Pipeline
unfolding register_section
register_sections [] p = p
register_sections (s ∷ ss) p = register_sections ss (register_section s p)

unfoldable pub register_mutators : List PromptMutator → Pipeline → Pipeline
unfolding register_mutator
register_mutators [] p = p
register_mutators (m ∷ ms) p = register_mutators ms (register_mutator m p)

-- What a plugin gives by the interfaces that it implements, in the order of the probes.
abbrev pub provided : Plugin → List Registration
provided p =
    map a_tool p.tools
    ++ (map (λ h. a_hook h.0 h.1) p.hooks
        ++ (map a_service p.services ++ map a_cli p.cli_registrars))

unfoldable pub probe_and_register : Plugin → Framework → Framework
unfolding register_all register_sections register_mutators
probe_and_register p f = record f {
  registry = register_all p.name (provided p) f.registry;
  prompt_pipeline = elim f.prompt_pipeline [
    | none ↦ none
    | some pipeline ↦
        some (register_mutators p.prompt_mutators (register_sections p.prompt_sections pipeline))
  ];
}

pub data InitError : Type 0 where
  create_failed init_failed : Text → Text → InitError
  already_registered : Text → InitError

-- InitPlugin.Init, where the plugin has it: the registry after the call, and the error.
unfoldable pub call_init : Plugin → Registry → Registry × Option Text
unfolding register_all
call_init p r = elim p.init [
  | none ↦ (r, none)
  | some call ↦ (register_all p.name call.registers r, call.error)
]

-- The steps 4 and 5 for a plugin that is in the registry, and the error.
unfoldable pub set_up : Definition → Plugin → Framework → Framework × Option InitError
unfolding call_init probe_and_register
set_up def p f =
    let (registry, err) = call_init p f.registry in
    let called = record f { registry = registry } in
    elim err [
      | some e ↦ (called, some (init_failed def.id e))
      | none ↦ (probe_and_register p called, none)
    ]

-- The steps 2 to 5 of Init for one factory, and the error.
unfoldable pub load_plugin : RegisteredFactory → Framework → Framework × Option InitError
unfolding register_plugin set_up
load_plugin entry f = elim entry.factory [
  | not_made e ↦ (f, some (create_failed entry.definition.id e))
  | made p ↦ elim (register_plugin p.name entry.definition p f.registry) [
    | none ↦ (f, some (already_registered entry.definition.id))
    | some registry ↦ set_up entry.definition p (record f { registry = registry })
  ]
]

abbrev pub occupy : Definition → Assoc Text → Assoc Text
occupy def active = if is_free def.kind then active else insert def.kind def.id active

-- The loop of Init, with the slots that are taken.
unfoldable pub init_loop :
    Assoc Text → List RegisteredFactory → Framework → Framework × Option InitError
unfolding resolve_slot load_plugin insert
init_loop active [] f = (f, none)
init_loop active (entry ∷ entries) f = elim (resolve_slot entry.definition active f.slot_config) [
  | some _ ↦ init_loop active entries f
  | none ↦
      let (f', err) = load_plugin entry f in
      elim err [
        | some e ↦ (f', some e)
        | none ↦ init_loop (occupy entry.definition active) entries f'
      ]
]

unfoldable pub init : Framework → Framework × Option InitError
unfolding init_loop
init f = init_loop [] (map (λ e. e.1) f.factories) f

-- What a plugin has of the interface LifecyclePlugin.
unfoldable pub lifecycle_of : Text → Registry → Option Lifecycle
unfolding get_plugin
lifecycle_of name r = elim (get_plugin name r) [ none ↦ none | some p ↦ p.lifecycle ]

-- A call outside: of a plugin, of a service, or of a hook.
pub data Effect : Type 0 where
  plugin_starts plugin_stops service_starts service_stops : Text → Effect
  hook_runs : HookHandler → Effect

-- The loop over the lifecycle plugins, and the error of the first that fails.
unfoldable pub start_plugins : List Text → Registry → List Effect × Option Text
unfolding lifecycle_of
start_plugins [] r = ([], none)
start_plugins (name ∷ names) r =
    let (later, err) = start_plugins names r in
    elim (lifecycle_of name r) [
      | none ↦ (later, err)
      | some l ↦ elim l.start_error [
        | some e ↦ (plugin_starts name ∷ [], some e)
        | none ↦ (plugin_starts name ∷ later, err)
      ]
    ]

unfoldable pub start_services : List ServiceDefinition → List Effect × Option Text
start_services [] = ([], none)
start_services (svc ∷ svcs) =
    let (later, err) = start_services svcs in
    elim svc.start_error [
      | some e ↦ (service_starts svc.name ∷ [], some e)
      | none ↦ (service_starts svc.name ∷ later, err)
    ]

-- Start; an error of a hook is only logged.
unfoldable pub start : Framework → List Effect × Option Text
unfolding start_plugins start_services fire_hooks
start f =
    let (plugins, err) = start_plugins (plugin_names f.registry) f.registry in
    elim err [
      | some e ↦ (plugins, some e)
      | none ↦
          let (services, err') = start_services (get_services f.registry) in
          elim err' [
            | some e ↦ (plugins ++ services, some e)
            | none ↦ (
              plugins ++ (services ++ map hook_runs (fire_hooks server_start f.registry).0),
              none,
            )
          ]
    ]

unfoldable pub stop_plugins : List Text → Registry → List Effect
unfolding lifecycle_of
stop_plugins [] r = []
stop_plugins (name ∷ names) r = elim (lifecycle_of name r) [
  | none ↦ stop_plugins names r
  | some l ↦ plugin_stops name ∷ stop_plugins names r
]

-- Stop; the loops run from the last entry to the first, and errors are only logged.
unfoldable pub stop : Framework → List Effect
unfolding stop_plugins fire_hooks
stop f =
    map hook_runs (fire_hooks server_stop f.registry).0
    ++ (map (λ s. service_stops s.name) (reverse (get_services f.registry))
        ++ stop_plugins (reverse (plugin_names f.registry)) f.registry)
