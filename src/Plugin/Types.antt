-- ===== src/Plugin/Types.antt =====
-- internal/hivemind/service/plugin: what plugins are and give (types.go, hooks.go, tools.go, services.go,
-- prompt_provider.go). A call of a plugin's code is a value: its error, with `none` for nil, and for Init what it
-- registers before it returns. An interface that a plugin does not implement is `none` or an empty list.
use echoryn.Prelude.{Text, List, Option}
use echoryn.Prompt.Types.{PromptSection, PromptMutator}

pub record Definition : Type 0 where
  pub id : Text
  pub name : Text
  pub kind : Text
  pub description : Text

pub data HookEvent : Type 0 where
  server_start server_stop before_agent_start agent_end before_generate after_generate : HookEvent
  other_event : Text → HookEvent

pub record HookHandler : Type 0 where
  pub name : Text
  pub error : Option Text

pub record ToolDefinition : Type 0 where
  pub name : Text
  pub description : Text

pub record ServiceDefinition : Type 0 where
  pub name : Text
  pub start_error : Option Text
  pub stop_error : Option Text

-- A call of the PluginAPI.
pub data Registration : Type 0 where
  a_tool : ToolDefinition → Registration
  a_cli : Text → Registration
  a_hook : HookEvent → HookHandler → Registration
  a_service : ServiceDefinition → Registration

-- InitPlugin.Init
pub record InitCall : Type 0 where
  pub registers : List Registration
  pub error : Option Text

-- LifecyclePlugin
pub record Lifecycle : Type 0 where
  pub start_error : Option Text
  pub stop_error : Option Text

pub record Plugin : Type 0 where
  pub name : Text
  pub init : Option InitCall
  pub lifecycle : Option Lifecycle
  pub tools : List ToolDefinition
  pub hooks : List (HookEvent × HookHandler)
  pub services : List ServiceDefinition
  pub cli_registrars : List Text
  pub prompt_sections : List PromptSection
  pub prompt_mutators : List PromptMutator
