-- ===== src/Plugin/Registry.antt =====
-- internal/hivemind/service/plugin/registry.go: the registry of plugins and of what they registered, and
-- FireHooks (api.go). The map of hooks, whose keys are events, is one list with the events.
pub mod Consistency
use echoryn.Prelude.{
  Text, codes, same, Assoc, lookup, insert, ℕ, Bool, true, false, List, [], ◌∷◌, ◌++◌, map, keep,
  Option, none, some, length, or_else,
}
use echoryn.Plugin.Types.{
  Definition, HookEvent, server_start, server_stop, before_agent_start, agent_end, before_generate,
  after_generate, other_event, HookHandler, ToolDefinition, ServiceDefinition, Registration, a_tool,
  a_cli, a_hook, a_service, Plugin,
}

pub record CliEntry : Type 0 where
  pub plugin_name : Text
  pub registrar : Text

pub record HookEntry : Type 0 where
  pub plugin_name : Text
  pub event : HookEvent
  pub handler : HookHandler

pub record ServiceEntry : Type 0 where
  pub plugin_name : Text
  pub service : ServiceDefinition

pub record Registry : Type 0 where
  pub plugins : Assoc Plugin
  pub plugin_order : List Text
  pub definitions : Assoc Definition
  pub tools : Assoc ToolDefinition
  pub tool_owners : Assoc Text
  pub cli_registrars : List CliEntry
  pub hooks : List HookEntry
  pub services : List ServiceEntry

abbrev pub new_registry : Registry
new_registry = record {
  plugins = [];
  plugin_order = [];
  definitions = [];
  tools = [];
  tool_owners = [];
  cli_registrars = [];
  hooks = [];
  services = [];
}

unfoldable pub add_tool : Text → ToolDefinition → Registry → Registry
unfolding insert
add_tool plugin tool r = record r {
  tools = insert tool.name tool r.tools;
  tool_owners = insert tool.name plugin r.tool_owners;
}

unfoldable pub add_cli : Text → Text → Registry → Registry
add_cli plugin registrar r = record r {
  cli_registrars =
      r.cli_registrars ++ (record { plugin_name = plugin; registrar = registrar } ∷ []);
}

unfoldable pub add_hook : Text → HookEvent → HookHandler → Registry → Registry
add_hook plugin event handler r = record r {
  hooks = r.hooks ++ (record { plugin_name = plugin; event = event; handler = handler } ∷ []);
}

unfoldable pub add_service : Text → ServiceDefinition → Registry → Registry
add_service plugin svc r = record r {
  services = r.services ++ (record { plugin_name = plugin; service = svc } ∷ []);
}

-- A call of the PluginAPI of a plugin.
unfoldable pub register : Text → Registration → Registry → Registry
unfolding add_tool add_cli add_hook add_service
register plugin (a_tool tool) r = add_tool plugin tool r
register plugin (a_cli registrar) r = add_cli plugin registrar r
register plugin (a_hook event handler) r = add_hook plugin event handler r
register plugin (a_service svc) r = add_service plugin svc r

unfoldable pub register_all : Text → List Registration → Registry → Registry
unfolding register
register_all plugin [] r = r
register_all plugin (x ∷ xs) r = register_all plugin xs (register plugin x r)

unfoldable pub get_plugin : Text → Registry → Option Plugin
unfolding lookup
get_plugin name r = lookup name r.plugins

abbrev pub get_tools : Registry → Assoc ToolDefinition
get_tools r = r.tools

abbrev pub same_event : HookEvent → HookEvent → Bool
same_event server_start server_start = true
same_event server_stop server_stop = true
same_event before_agent_start before_agent_start = true
same_event agent_end agent_end = true
same_event before_generate before_generate = true
same_event after_generate after_generate = true
same_event (other_event s) (other_event t) = same s t
same_event _ _ = false

unfoldable pub get_hooks : HookEvent → Registry → List HookHandler
unfolding same
get_hooks event r = map (λ h. h.handler) (keep (λ h. same_event h.event event) r.hooks)

abbrev pub get_services : Registry → List ServiceDefinition
get_services r = map (λ e. e.service) r.services

abbrev pub plugin_names : Registry → List Text
plugin_names r = r.plugin_order

abbrev pub registry_len : Registry → ℕ
registry_len r = length r.plugins

-- registerPlugin; `none` is that the name is taken.
unfoldable pub register_plugin : Text → Definition → Plugin → Registry → Option Registry
unfolding lookup insert
register_plugin name def p r = elim (lookup name r.plugins) [
  | some _ ↦ none
  | none ↦ some (record r {
    plugins = insert name p r.plugins;
    definitions = insert name def r.definitions;
    plugin_order = r.plugin_order ++ (name ∷ []);
  })
]

-- The loop of FireHooks: the handlers called, and the first error.
unfoldable pub fire_loop : List HookHandler → Option Text → List HookHandler × Option Text
fire_loop [] first_err = ([], first_err)
fire_loop (h ∷ hs) first_err =
    let (called, err) = fire_loop hs (or_else first_err h.error) in (h ∷ called, err)

unfoldable pub fire_hooks : HookEvent → Registry → List HookHandler × Option Text
unfolding get_hooks fire_loop
fire_hooks event r = fire_loop (get_hooks event r) none
