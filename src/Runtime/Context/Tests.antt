-- ===== src/Runtime/Context/Tests.antt =====
-- internal/hivemind/service/agents/domain/service/runtime/context_builder.go: runs of the model, and the theorems at
-- concrete inputs.
use echoryn.Prelude.{
  Text, codes, is_empty, same, drop, ◌≡◌, ◌++◌, refl, false, none, some, List, [], ◌∷◌,
}
use echoryn.Runtime.Agent.{Agent, effective_max_turns}
use echoryn.Runtime.Message.{
  Message, SchemaMessage, Role, user, assistant, tool, system, to_schema_message,
}
use echoryn.Runtime.Session.{Session, active_messages, has_compaction}
use echoryn.Runtime.Tokens.{estimate_messages, estimate_message, estimate_string}
use echoryn.Runtime.Window.{ContextWindowInfo}
use echoryn.Runtime.Pruner.{prune, find_protection_boundary, apply_soft_trim}
use echoryn.Runtime.Pruner.Result.{Pruned}
use echoryn.Runtime.Context.{
  ContextBuilder, BuildResult, build, limit_history_turns, resolve_system_prompt, set_pipeline,
  prompt_mode_of, spoken, to_schema_messages,
}
use echoryn.Runtime.Context.Turns.{IsLimited, Kept, limit_history_turns_correct}
use echoryn.Runtime.Context.Layout.{build_correct, build-ends, IsShown, IsSummary}
use echoryn.Prompt.Types.{mode_minimal}
use echoryn.Prompt.Pipeline.{Sorting, assemble, new_pipeline}

abbrev said : Role → Text → Message
said r t = record {
  role = r;
  content = t;
  name = [];
  tool_calls = [];
  tool_call_id = [];
  metadata = [];
  created_at = 5;
}

abbrev talk : List Message
talk =
    said user (codes "list")
    ∷ said assistant (codes "four files")
    ∷ said tool (codes "a.txt")
    ∷ said user (codes "thanks")
    ∷ said assistant (codes "welcome")
    ∷ []

abbrev builder : ContextBuilder
builder = record {
  estimator = record { chars_per_token = record { num = 7; den = 2 } };
  pruner = record {
    estimator = record { chars_per_token = record { num = 7; den = 2 } };
    config = record {
      soft_trim_ratio = record { num = 3; den = 10 };
      hard_clear_ratio = record { num = 5; den = 10 };
      soft_trim_head_chars = 4;
      soft_trim_tail_chars = 4;
      keep_last_assistants = 1;
    };
  };
  max_history_turns = 1;
  pipeline = none;
}

abbrev agent : Agent
agent = record {
  id = codes "a";
  name = codes "a";
  description = [];
  system_prompt = codes "Be brief.";
  persona = none;
  model_ref = record { provider_id = codes "p"; model_id = codes "m" };
  fallback = record {
    primary = record { provider_id = codes "p"; model_id = codes "m" };
    fallbacks = [];
    max_attempts = 0;
    skip_on_cooldown = false;
  };
  tools = [];
  mcp_servers = [];
  max_turns = 0;
  temperature = none;
  max_tokens = none;
  created_at = 1;
  updated_at = 1;
}

abbrev session : Session
session = record {
  id = codes "s";
  agent_id = codes "a";
  parent_session_id = [];
  messages = talk;
  usage = none;
  metadata = [];
  compaction_summary = codes "Files.";
  compaction_count = 1;
  first_kept_index = 1;
  created_at = 1;
  updated_at = 2;
}

abbrev window : ContextWindowInfo
window = record { window_size = 100; reserve_tokens = 20; usable_tokens = 80 }

abbrev order : Sorting
order = record { by_section = λ s. s; by_mutator = λ s. s; by_string = λ s. s }

abbrev built : BuildResult
built = (build order (codes "noon") agent (some session) (codes "more") [] window none builder).0

-- Only the last turn is left, between the summary and the input.
build_run :
    built.messages
    ≡ spoken system (codes "Be brief.")
      ∷ spoken system (codes "[Conversation Summary]\nFiles.")
      ∷ spoken user (codes "thanks")
      ∷ spoken assistant (codes "welcome")
      ∷ spoken user (codes "more")
      ∷ []
unfolding build active_messages has_compaction prune estimate_messages estimate_message
    estimate_string to_schema_message apply_soft_trim find_protection_boundary
build_run = refl

-- A limit of two turns that the history just has trims nothing.
limit_run : limit_history_turns (record builder { max_history_turns = 2 }) talk ≡ (talk, false)
unfolding limit_history_turns
limit_run = refl

-- A pipeline that shows nothing leaves the prompt of the agent.
fallback_run :
    (resolve_system_prompt order [] agent none none (set_pipeline (some new_pipeline) builder)).0
    ≡ codes "Be brief."
unfolding resolve_system_prompt assemble
fallback_run = refl

mode_run : prompt_mode_of (codes "minimal") ≡ mode_minimal
unfolding prompt_mode_of same
mode_run = refl

turns_run : effective_max_turns agent 20 ≡ 20
unfolding effective_max_turns
turns_run = refl

limit_history_turns_correct_example : Kept 1 talk (limit_history_turns builder talk)
limit_history_turns_correct_example = limit_history_turns_correct builder talk

build_correct_example :
    (prompt : Text) × (before kept : List Message) × (first summary last : List SchemaMessage)
    × let sent = first ++ (summary ++ ([] ++ (to_schema_messages kept ++ last))) in
      let b = find_protection_boundary 1 sent in
      (prompt ≡ codes "Be brief.")
      × IsShown system prompt first
      × IsSummary (some session) summary
      × IsShown user (codes "more") last
      × (before ++ kept ≡ drop 1 talk)
      × IsLimited 1 before kept built.history_trimmed
      × Pruned sent built.messages
      × (drop b built.messages ≡ drop b sent)
      × (built.estimated_tokens ≡ estimate_messages builder.pruner.estimator built.messages)
build_correct_example =
    build_correct order (codes "noon") agent (some session) (codes "more") [] window none builder

build-ends_example :
    (prompt : Text) × (middle : List SchemaMessage) × (is_empty prompt ≡ false)
    × (built.messages ≡ spoken system prompt ∷ middle ++ (spoken user (codes "more") ∷ []))
build-ends_example =
    build-ends order (codes "noon") agent (some session) (codes "more") [] window none builder refl
      refl
