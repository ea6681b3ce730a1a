-- ===== src/Runtime/Pruner.antt =====
-- internal/hivemind/service/agents/domain/service/runtime/context_pruner.go.
-- The ratios are fractions: `estimated / usable <= ratio` is compared by cross multiplication. The
-- messages are values, so the deep copy of the code is the identity; logging is left out.
pub mod Boundary
pub mod Stages
pub mod Result
use echoryn.Prelude.{
  Text, codes, length, get_elem?, take, drop, decimal, has_prefix, ℕ, zero, suc, ◌+◌, ◌-◌, ◌*◌, ◌≡◌,
  ◌++◌, Bool, true, false, ◌&&◌, ◌||◌, not, Option, none, some, List, [], ◌∷◌, if◌then◌else◌, ltb,
  leb, ◌==◌, backward,
}
use echoryn.Runtime.Message.{SchemaMessage, Role, user, assistant, system, tool, other}
use echoryn.Runtime.Tokens.{Ratio, TokenEstimator, estimate_messages}

pub record PrunerConfig : Type 0 where
  pub soft_trim_ratio : Ratio
  pub hard_clear_ratio : Ratio
  pub soft_trim_head_chars : ℕ
  pub soft_trim_tail_chars : ℕ
  pub keep_last_assistants : ℕ

unfoldable pub default_pruner_config : PrunerConfig
default_pruner_config = record {
  soft_trim_ratio = record { num = 3; den = 10 };
  hard_clear_ratio = record { num = 5; den = 10 };
  soft_trim_head_chars = 1500;
  soft_trim_tail_chars = 1500;
  keep_last_assistants = 3;
}

pub record ContextPruner : Type 0 where
  pub estimator : TokenEstimator
  pub config : PrunerConfig

unfoldable pub new_context_pruner : TokenEstimator → PrunerConfig → ContextPruner
unfolding default_pruner_config
new_context_pruner te c = record {
  estimator = te;
  config = record {
    soft_trim_ratio =
        if c.soft_trim_ratio.num == 0
        then default_pruner_config.soft_trim_ratio
        else c.soft_trim_ratio;
    hard_clear_ratio =
        if c.hard_clear_ratio.num == 0
        then default_pruner_config.hard_clear_ratio
        else c.hard_clear_ratio;
    soft_trim_head_chars = if c.soft_trim_head_chars == 0 then 1500 else c.soft_trim_head_chars;
    soft_trim_tail_chars = if c.soft_trim_tail_chars == 0 then 1500 else c.soft_trim_tail_chars;
    keep_last_assistants = if c.keep_last_assistants == 0 then 3 else c.keep_last_assistants;
  };
}

pub record PruneResult : Type 0 where
  pub messages : List SchemaMessage
  pub estimated_tokens : ℕ
  pub soft_trimmed : ℕ
  pub hard_cleared : ℕ

unfoldable pub is_tool : SchemaMessage → Bool
is_tool m = elim m.role [ tool ↦ true | _ ↦ false ]

unfoldable pub is_assistant : SchemaMessage → Bool
is_assistant m = elim m.role [ assistant ↦ true | _ ↦ false ]

-- The content that applySoftTrim writes for a content of `n` code points.
unfoldable pub soft_trimmed_content : PrunerConfig → Text → Text
soft_trimmed_content c content =
    let n = length content in
    let max_keep = c.soft_trim_head_chars + c.soft_trim_tail_chars in
    take c.soft_trim_head_chars content
    ++ (codes "\n\n... ["
        ++ (decimal (n - max_keep)
            ++ (codes " characters truncated] ...\n\n"
                ++ drop (n - c.soft_trim_tail_chars) content)))

unfoldable pub soft_trims : PrunerConfig → SchemaMessage → Bool
unfolding is_tool
soft_trims c m =
    is_tool m && ltb (c.soft_trim_head_chars + c.soft_trim_tail_chars) (length m.content)

-- The loops run over the messages before the boundary, and count what they change.
unfoldable pub apply_soft_trim : PrunerConfig → List SchemaMessage → ℕ → List SchemaMessage × ℕ
unfolding soft_trimmed_content soft_trims
apply_soft_trim c ms zero = (ms, 0)
apply_soft_trim c [] (suc n) = ([], 0)
apply_soft_trim c (m ∷ ms) (suc n) =
    let (rest, trimmed) = apply_soft_trim c ms n in
    if soft_trims c m
    then (record m { content = soft_trimmed_content c m.content } ∷ rest, trimmed + 1)
    else (m ∷ rest, trimmed)

abbrev pub placeholder : Text
placeholder = codes "[Old tool result content cleared]"

unfoldable pub hard_clears : SchemaMessage → Bool
unfolding is_tool
hard_clears m = is_tool m && not (has_prefix placeholder m.content)

unfoldable pub apply_hard_clear : List SchemaMessage → ℕ → List SchemaMessage × ℕ
unfolding hard_clears
apply_hard_clear ms zero = (ms, 0)
apply_hard_clear [] (suc n) = ([], 0)
apply_hard_clear (m ∷ ms) (suc n) =
    let (rest, cleared) = apply_hard_clear ms n in
    if hard_clears m
    then (record m { content = placeholder } ∷ rest, cleared + 1)
    else (m ∷ rest, cleared)

unfoldable pub find_protection_boundary : ℕ → List SchemaMessage → ℕ
unfolding backward is_assistant
find_protection_boundary keep ms = backward is_assistant keep ms (length ms) 0

-- `estimated / usable > ratio`.
abbrev pub exceeds : ℕ → ℕ → Ratio → Bool
exceeds estimated usable r = ltb (r.num * usable) (estimated * r.den)

-- Stage 2 of Prune, on the messages that stage 1 leaves.
hard_stage : ContextPruner → ℕ → ℕ → List SchemaMessage × ℕ → PruneResult
hard_stage p usable protect_from (trimmed_messages, trimmed) =
    let estimated = estimate_messages p.estimator trimmed_messages in
    let (cleared_messages, cleared) = apply_hard_clear trimmed_messages protect_from in
    if exceeds estimated usable p.config.hard_clear_ratio
    then record {
      messages = cleared_messages;
      estimated_tokens = estimate_messages p.estimator cleared_messages;
      soft_trimmed = trimmed;
      hard_cleared = cleared;
    }
    else record {
      messages = trimmed_messages;
      estimated_tokens = estimated;
      soft_trimmed = trimmed;
      hard_cleared = 0;
    }

abbrev pub unpruned : ContextPruner → List SchemaMessage → PruneResult
unpruned p ms = record {
  messages = ms;
  estimated_tokens = estimate_messages p.estimator ms;
  soft_trimmed = 0;
  hard_cleared = 0;
}

unfoldable pub prune : ContextPruner → List SchemaMessage → ℕ → PruneResult
unfolding hard_stage
prune p ms usable =
    let estimated = estimate_messages p.estimator ms in
    let protect_from = find_protection_boundary p.config.keep_last_assistants ms in
    if usable == 0 || length ms == 0
    then unpruned p ms
    else if not (exceeds estimated usable p.config.soft_trim_ratio)
    then unpruned p ms
    else hard_stage p usable protect_from (apply_soft_trim p.config ms protect_from)
