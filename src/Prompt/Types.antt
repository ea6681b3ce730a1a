-- ===== src/Prompt/Types.antt =====
-- internal/hivemind/service/agents/domain/service/runtime/prompt/types.go: what a section of the prompt reads, and the
-- interfaces of sections and mutators. `none` is an error of theirs, and a missing pointer. The time with
-- its zone is the text that the run-time section prints of it.
use echoryn.Prelude.{Text, ℤ, List, Option, Bool}

pub record AgentIdentityInfo : Type 0 where
  pub name : Text
  pub emoji : Text
  pub creature : Text
  pub vibe : Text
  pub theme : Text

pub record AgentPersonaInfo : Type 0 where
  pub identity : Option AgentIdentityInfo
  pub prompt_mode : Text
  pub workspace_dir : Text

pub record AgentPromptInfo : Type 0 where
  pub id : Text
  pub name : Text
  pub system_prompt : Text
  pub persona : Option AgentPersonaInfo

pub data PromptMode : Type 0 where
  mode_full mode_minimal mode_none : PromptMode
  mode_other : Text → PromptMode

pub record ToolSummary : Type 0 where
  pub name : Text
  pub description : Text
  pub source : Text

pub record GolemInfo : Type 0 where
  pub id : Text
  pub name : Text
  pub status : Text
  pub skills : List Text

pub record ClusterInfo : Type 0 where
  pub hivemind_id : Text
  pub version : Text
  pub golems : List GolemInfo

pub record PromptContext : Type 0 where
  pub agent : Option AgentPromptInfo
  pub session_id : Text
  pub mode : PromptMode
  pub cluster_info : Option ClusterInfo
  pub node_id : Text
  pub now : Text
  pub model_name : Text
  pub tools : List ToolSummary

pub record PromptSection : Type 0 where
  pub name : Text
  pub priority : ℤ
  pub enabled : PromptContext → Bool
  pub render : PromptContext → Option Text

pub record PromptMutator : Type 0 where
  pub name : Text
  pub priority : ℤ
  pub mutate : PromptContext → Text → Option Text
