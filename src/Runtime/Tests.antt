-- ===== src/Runtime/Tests.antt =====
-- internal/hivemind/service/agents: runs of the model, and the theorems at concrete inputs.
use echoryn.Prelude.{
  Text, codes, length, take, drop, map, decimal, ◌<◌, ◌≡◌, ◌≢◌, ◌++◌, refl, none, some, List, [],
  ◌∷◌, arith,
}
use echoryn.Runtime.Message.{
  Role, user, assistant, tool, Message, SchemaMessage, to_schema_messages, from_schema_messages,
  sent_and_read, from_schema_messages-to_schema_messages, to_schema_message,
}
use echoryn.Runtime.Tokens.{
  TokenEstimator, new_token_estimator, estimate_string, estimate_message, estimate_messages,
  IsUsable, new_token_estimator-IsUsable,
}
use echoryn.Runtime.Window.{ModelInfo, ContextWindowInfo}
use echoryn.Runtime.Pruner.{ContextPruner, prune, soft_trimmed_content, apply_soft_trim}
use echoryn.Runtime.Pruner.Stages.{soft_trim, apply_soft_trim-map}
use echoryn.Runtime.Pruner.Result.{Pruned, prune_sound}
use echoryn.Runtime.Session.{Session, active_messages}
use echoryn.Runtime.Compaction.{
  Compactor, ChatModel, compact, compacted, find_compaction_split_point, summarize, summarize_chunk,
}
use echoryn.Runtime.Compaction.Split.{find_compaction_split_point_correct}
use echoryn.Runtime.Compaction.Effect.{Effect, compact-Effect}
use echoryn.Runtime.RunState.{
  created, in_progress, is_terminal, Run, here, next, Step, starts, completes, cancels,
  transition_to_in_progress, transition_to_completed, transition_to_cancelled, IsConsistent,
  Reach-IsConsistent, Step-status,
}

abbrev said : Role → Text → Message
said r t = record {
  role = r;
  content = t;
  name = [];
  tool_calls = [];
  tool_call_id = [];
  metadata = [];
  created_at = 5;
}

abbrev history : List Message
history =
    said user (codes "list the files")
    ∷ said tool (codes "a.txt b.txt c.txt d.txt")
    ∷ said assistant (codes "four files")
    ∷ said user (codes "thanks")
    ∷ []

abbrev sent : List SchemaMessage
sent = to_schema_messages history

abbrev te : TokenEstimator
te = record { chars_per_token = record { num = 7; den = 2 } }

abbrev small_pruner : ContextPruner
small_pruner = record {
  estimator = te;
  config = record {
    soft_trim_ratio = record { num = 3; den = 10 };
    hard_clear_ratio = record { num = 5; den = 10 };
    soft_trim_head_chars = 4;
    soft_trim_tail_chars = 4;
    keep_last_assistants = 1;
  };
}

soft_trim_run :
    soft_trimmed_content small_pruner.config (codes "abcdefghijkl")
    ≡ codes "abcd\n\n... [4 characters truncated] ...\n\nijkl"
unfolding soft_trimmed_content decimal
soft_trim_run = refl

estimate_run : estimate_messages te sent ≡ 33
unfolding estimate_messages estimate_message estimate_string to_schema_message
estimate_run = refl

from_schema_messages-to_schema_messages_example :
    from_schema_messages (map some (to_schema_messages history)) ≡ map sent_and_read history
from_schema_messages-to_schema_messages_example = from_schema_messages-to_schema_messages history

new_token_estimator-IsUsable_example : IsUsable (new_token_estimator (record { num = 0; den = 1 }))
new_token_estimator-IsUsable_example =
    new_token_estimator-IsUsable (record { num = 0; den = 1 }) (omega arith)

abbrev tiny_model : ModelInfo
tiny_model = record { context_window = 4096; max_tokens = 9000 }

apply_soft_trim-map_example :
    (apply_soft_trim small_pruner.config sent 2).0
    ≡ map (soft_trim small_pruner.config) (take 2 sent) ++ drop 2 sent
apply_soft_trim-map_example = (apply_soft_trim-map small_pruner.config sent 2).0

prune_sound_example : Pruned sent (prune small_pruner sent 20).messages
prune_sound_example = (prune_sound small_pruner sent 20).0.0

abbrev session : Session
session = record {
  id = codes "s";
  agent_id = codes "a";
  parent_session_id = [];
  messages = history;
  usage = none;
  metadata = [];
  compaction_summary = [];
  compaction_count = 0;
  first_kept_index = 0;
  created_at = 0;
  updated_at = 0;
}

find_compaction_split_point_correct_example : find_compaction_split_point 1 history < length history
find_compaction_split_point_correct_example =
    (find_compaction_split_point_correct 1 history (omega arith) (omega arith)).0

abbrev compactor : Compactor
compactor = record {
  estimator = te;
  compaction_threshold = record { num = 8; den = 10 };
  keep_recent_turns = 1;
}

abbrev window : ContextWindowInfo
window = record { window_size = 16000; reserve_tokens = 8000; usable_tokens = 8000 }

abbrev echo_model : ChatModel
echo_model call system prompt = some (codes "  a summary ")

compact_run : (compact compactor session echo_model window 9).1 ≡ compacted (codes "a summary")
unfolding compact active_messages find_compaction_split_point summarize estimate_messages
    estimate_message estimate_string to_schema_message summarize_chunk
compact_run = refl

compact-Effect_example :
    Effect compactor echo_model window session 9 (compact compactor session echo_model window 9)
compact-Effect_example = compact-Effect compactor session echo_model window 9 (omega arith)

abbrev silent_model : ChatModel
silent_model call system prompt = none

-- A thousand tokens for each code point.
abbrev dear : TokenEstimator
dear = record { chars_per_token = record { num = 1; den = 1000 } }

abbrev new_run : Run
new_run = record {
  id = codes "r";
  session_id = codes "s";
  agent_id = codes "a";
  status = created;
  input = codes "list the files";
  output = [];
  usage = none;
  error = none;
  model_ref = [];
  tool_call_count = 0;
  created_at = 1;
  completed_at = none;
}

abbrev started : Run
started = record new_run { status = in_progress }

new_run-IsConsistent : IsConsistent new_run
unfolding is_terminal
new_run-IsConsistent = record { stamped = λ h. cc; running = λ h. refl; explained = λ h. cc }

started-Step : Step new_run started
unfolding transition_to_in_progress
started-Step = starts refl

abbrev ended : Run
ended = transition_to_completed started (codes "done") none 4

Reach-IsConsistent_example : IsConsistent (transition_to_cancelled ended 6)
Reach-IsConsistent_example = Reach-IsConsistent new_run-IsConsistent (
    next (next (next here started-Step) (completes started (codes "done") none 4))
      (cancels ended 6))

Step-status_example :
    (started.status ≡ in_progress → new_run.status ≡ created) × (started.status ≢ created)
Step-status_example = Step-status started-Step
