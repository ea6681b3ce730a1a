-- ===== src/Runtime/Context.antt =====
-- internal/hivemind/service/agents/domain/service/runtime/context_builder.go: the messages that go to the model.
-- The agent is present: Build dereferences it. Assemble has no error to return. A limit of turns that is not
-- positive is 0. What package sort does for the pipeline is an argument, as is the time, in the form in which the
-- prompt prints it.
pub mod Turns
pub mod Layout
pub mod Tests
use echoryn.Prelude.{
  Text, codes, length, drop, is_empty, same, ℕ, ◌++◌, Bool, true, false, Option, none, some, List,
  [], ◌∷◌, map, if◌then◌else◌, ◌==◌, backward,
}
use echoryn.Runtime.Agent.{Agent, AgentPersona, AgentIdentity, effective_prompt_mode}
use echoryn.Runtime.Message.{
  Message, is_user, SchemaMessage, Role, system, user, to_schema_messages,
}
use echoryn.Runtime.Session.{Session, active_messages, has_compaction}
use echoryn.Runtime.Tokens.{TokenEstimator}
use echoryn.Runtime.Window.{ContextWindowInfo}
use echoryn.Runtime.Pruner.{ContextPruner, PruneResult, prune}
use echoryn.Prompt.Types.{
  PromptMode, mode_full, mode_minimal, mode_none, mode_other, PromptContext, AgentPromptInfo,
  AgentPersonaInfo, AgentIdentityInfo,
}
use echoryn.Prompt.Pipeline.{Pipeline, Sorting, assemble}

pub record ContextBuilder : Type 0 where
  pub estimator : TokenEstimator
  pub pruner : ContextPruner
  pub max_history_turns : ℕ
  pub pipeline : Option Pipeline

abbrev pub new_context_builder : TokenEstimator → ContextPruner → ℕ → ContextBuilder
new_context_builder estimator pruner max_history_turns = record {
  estimator = estimator;
  pruner = pruner;
  max_history_turns = max_history_turns;
  pipeline = none;
}

abbrev pub set_pipeline : Option Pipeline → ContextBuilder → ContextBuilder
set_pipeline p cb = record cb { pipeline = p }

pub record BuildResult : Type 0 where
  pub messages : List SchemaMessage
  pub estimated_tokens : ℕ
  pub history_trimmed : Bool
  pub prune_soft_trimmed : ℕ
  pub prune_hard_cleared : ℕ

unfoldable pub limit_history_turns : ContextBuilder → List Message → List Message × Bool
unfolding backward is_user
limit_history_turns cb ms =
    let cutoff = backward is_user cb.max_history_turns ms (length ms) 0 in
    if cb.max_history_turns == 0
    then (ms, false)
    else if cutoff == 0
    then (ms, false)
    else (drop cutoff ms, true)

-- The conversion of a string to a PromptMode, by its constants.
unfoldable pub prompt_mode_of : Text → PromptMode
prompt_mode_of s =
    if same s (codes "full")
    then mode_full
    else if same s (codes "minimal")
    then mode_minimal
    else if same s (codes "none")
    then mode_none
    else mode_other s

unfoldable pub identity_info : AgentIdentity → AgentIdentityInfo
identity_info i = record {
  name = i.name;
  emoji = i.emoji;
  creature = i.creature;
  vibe = i.vibe;
  theme = i.theme;
}

unfoldable pub persona_info : AgentPersona → AgentPersonaInfo
unfolding identity_info
persona_info p = record {
  identity = elim p.identity [ none ↦ none | some i ↦ some (identity_info i) ];
  prompt_mode = p.prompt_mode;
  workspace_dir = p.workspace_dir;
}

unfoldable pub build_prompt_context : Text → Agent → Option Session → PromptContext
unfolding persona_info prompt_mode_of effective_prompt_mode
build_prompt_context now agent session = record {
  agent = some (record {
    id = agent.id;
    name = agent.name;
    system_prompt = agent.system_prompt;
    persona = elim agent.persona [ none ↦ none | some p ↦ some (persona_info p) ];
  });
  session_id = elim session [ none ↦ [] | some s ↦ s.id ];
  mode = prompt_mode_of (effective_prompt_mode agent);
  cluster_info = none;
  node_id = [];
  now = now;
  model_name = [];
  tools = [];
}

-- The text of the system prompt; assembling it sorts the pipeline.
unfoldable pub resolve_system_prompt :
    Sorting
    → Text
    → Agent
    → Option Session
    → Option PromptContext
    → ContextBuilder
    → Text × ContextBuilder
unfolding build_prompt_context
resolve_system_prompt order now agent session prompt_ctx cb = elim cb.pipeline [
  | none ↦ (agent.system_prompt, cb)
  | some p ↦
      let pc : PromptContext = elim prompt_ctx [
        | none ↦ build_prompt_context now agent session
        | some given ↦ given
      ] in
      let (assembled, p') = assemble order pc p in
      let cb' = record cb { pipeline = some p' } in
      if is_empty assembled then (agent.system_prompt, cb') else (assembled, cb')
]

-- A message of the model library with a role and a text.
abbrev pub spoken : Role → Text → SchemaMessage
spoken r content = record {
  role = r;
  content = content;
  name = [];
  tool_calls = [];
  tool_call_id = [];
}

-- It is appended where there is a text.
abbrev pub message_of : Role → Text → List SchemaMessage
message_of r content = if is_empty content then [] else spoken r content ∷ []

abbrev pub summary_message : Option Session → List SchemaMessage
summary_message none = []
summary_message (some s) =
    if has_compaction s
    then message_of system (codes "[Conversation Summary]\n" ++ s.compaction_summary)
    else []

-- The messages of the session that are sent.
unfoldable pub history : ContextBuilder → Option Session → List Message × Bool
unfolding limit_history_turns
history cb none = ([], false)
history cb (some s) =
    if length (active_messages s) == 0
    then ([], false)
    else if cb.max_history_turns == 0
    then (active_messages s, false)
    else limit_history_turns cb (active_messages s)

abbrev pub build_result : PruneResult → Bool → BuildResult
build_result r trimmed = record {
  messages = r.messages;
  estimated_tokens = r.estimated_tokens;
  history_trimmed = trimmed;
  prune_soft_trimmed = r.soft_trimmed;
  prune_hard_cleared = r.hard_cleared;
}

unfoldable pub build :
    Sorting
    → Text
    → Agent
    → Option Session
    → Text
    → List Message
    → ContextWindowInfo
    → Option PromptContext
    → ContextBuilder
    → BuildResult × ContextBuilder
unfolding resolve_system_prompt history
build order now agent session user_input injected window_info prompt_ctx cb =
    let (system_prompt, cb') = resolve_system_prompt order now agent session prompt_ctx cb in
    let (history_msgs, history_trimmed) = history cb session in
    let messages =
      message_of system system_prompt
      ++ (summary_message session
          ++ (to_schema_messages injected
              ++ (to_schema_messages history_msgs ++ message_of user user_input))) in
    (build_result (prune cb.pruner messages window_info.usable_tokens) history_trimmed, cb')
