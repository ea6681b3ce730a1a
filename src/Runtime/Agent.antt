-- ===== src/Runtime/Agent.antt =====
-- internal/hivemind/service/agents/domain/entity/agent.go. The sampling temperature is a float that nothing here
-- reads: its bits stand for it. A limit of turns or tokens that is not positive is 0.
use echoryn.Prelude.{Text, codes, Assoc, ℕ, Option, none, some, List, is_empty, if◌then◌else◌, ltb}
use echoryn.Llm.Fallback.{ModelRef, FallbackConfig}

pub record AgentIdentity : Type 0 where
  pub name : Text
  pub emoji : Text
  pub creature : Text
  pub vibe : Text
  pub theme : Text

pub record AgentPersona : Type 0 where
  pub identity : Option AgentIdentity
  pub prompt_mode : Text
  pub workspace_dir : Text
  pub extra_sections : Assoc Text

pub record Agent : Type 0 where
  pub id : Text
  pub name : Text
  pub description : Text
  pub system_prompt : Text
  pub persona : Option AgentPersona
  pub model_ref : ModelRef
  pub fallback : FallbackConfig
  pub tools : List Text
  pub mcp_servers : List Text
  pub max_turns : ℕ
  pub temperature : Option ℕ
  pub max_tokens : Option ℕ
  pub created_at : ℕ
  pub updated_at : ℕ

unfoldable pub effective_prompt_mode : Agent → Text
effective_prompt_mode a = elim a.persona [
  | none ↦ codes "full"
  | some persona ↦ if is_empty persona.prompt_mode then codes "full" else persona.prompt_mode
]

unfoldable pub effective_max_turns : Agent → ℕ → ℕ
effective_max_turns a default_max = if ltb 0 a.max_turns then a.max_turns else default_max
