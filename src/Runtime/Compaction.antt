-- ===== src/Runtime/Compaction.antt =====
-- internal/hivemind/service/agents/domain/service/runtime/compaction.go.
-- The chat model is a parameter: from the number of the call in one compaction, the system prompt and
-- the user prompt to the content of its answer, or `none` for an error. So two calls with the same
-- prompts may be answered differently. The share 0.4 of the window is computed as 2/5.
mod Prompts
pub mod Chunks
pub mod Split
pub mod Effect
mod Summary
use echoryn.Prelude.{
  Text, codes, length, get_elem?, take, join, is_empty, ℕ, zero, suc, ◌+◌, ◌-◌, ◌*◌, ◌/◌, ◌++◌,
  Bool, true, false, ◌&&◌, not, Option, none, some, List, [], ◌∷◌, if◌then◌else◌, ltb, leb, ◌==◌,
}
use echoryn.Runtime.Message.{Message, is_user, SchemaMessage, user, to_schema_messages}
use echoryn.Runtime.Tokens.{Ratio, TokenEstimator, estimate_message, estimate_messages}
use echoryn.Runtime.Window.{ContextWindowInfo}
use echoryn.Runtime.Session.{Session, active_messages, apply_compaction}
use Prompts.{trim_space, chunk_prompt, merge_prompt, chunk_system, merge_system, missing_summary}

pub record Compactor : Type 0 where
  pub estimator : TokenEstimator
  pub compaction_threshold : Ratio
  pub keep_recent_turns : ℕ

-- NewCompactor; a threshold or a number of turns that is not positive is replaced.
unfoldable pub new_compactor : TokenEstimator → Ratio → ℕ → Compactor
new_compactor te threshold turns = record {
  estimator = te;
  compaction_threshold = if threshold.num == 0 then record { num = 8; den = 10 } else threshold;
  keep_recent_turns = if turns == 0 then 3 else turns;
}

unfoldable pub should_compact : Compactor → Session → ContextWindowInfo → Bool
should_compact c s w =
    let active = active_messages s in
    let estimated = estimate_messages c.estimator (to_schema_messages active) in
    if length active == 0
    then false
    else ltb (c.compaction_threshold.num * w.usable_tokens) (estimated * c.compaction_threshold.den)

-- `for i := len(messages) - 1; i >= 0; i--` with `i + 1` rounds left and `turns` found; `none` when
-- the loop ends without a return.
split_loop : ℕ → List Message → ℕ → ℕ → Option ℕ
unfolding is_user
split_loop keep ms zero turns = none
split_loop keep ms (suc i) turns =
    let found : Bool = elim (get_elem? ms i) [ none ↦ false | some m ↦ is_user m ] in
    let rest = split_loop keep ms i (if found then turns + 1 else turns) in
    if found && leb keep (turns + 1) then some i else rest

unfoldable pub find_compaction_split_point : ℕ → List Message → ℕ
unfolding split_loop
find_compaction_split_point keep ms = elim (split_loop keep ms (length ms) 0) [
  | some i ↦ i
  | none ↦ if ltb 1 (length ms) then length ms - 1 else 0
]

-- The loop of splitIntoChunks with the current chunk and its tokens.
unfoldable pub chunk_loop :
    TokenEstimator → ℕ → List SchemaMessage → ℕ → List SchemaMessage → List (List SchemaMessage)
chunk_loop te budget current tokens [] = if length current == 0 then [] else current ∷ []
chunk_loop te budget current tokens (m ∷ ms) =
    let size = estimate_message te (some m) in
    let cut = current ∷ chunk_loop te budget (m ∷ []) size ms in
    let grow = chunk_loop te budget (current ++ (m ∷ [])) (tokens + size) ms in
    if ltb budget (tokens + size) && not (length current == 0) then cut else grow

unfoldable pub split_into_chunks :
    TokenEstimator → List SchemaMessage → ℕ → List (List SchemaMessage)
unfolding chunk_loop
split_into_chunks te ms budget = chunk_loop te budget [] 0 ms

-- The chat model: the number of the call, the system prompt and the user prompt.
abbrev pub ChatModel : Type 0
ChatModel = ℕ → Text → Text → Option Text

unfoldable pub summarize_chunk : ChatModel → ℕ → List SchemaMessage → Text → ℕ → Option Text
unfolding chunk_prompt trim_space
summarize_chunk model call messages existing_summary max_tokens =
    elim (model call chunk_system (chunk_prompt messages existing_summary max_tokens)) [
      | none ↦ none
      | some content ↦ some (trim_space content)
    ]

unfoldable pub merge_summaries : ChatModel → ℕ → List Text → ℕ → Text
unfolding merge_prompt trim_space
merge_summaries model call partials max_tokens =
    elim (model call merge_system (merge_prompt partials max_tokens)) [
      | none ↦ join (codes "\n\n---\n\n") partials
      | some content ↦ trim_space content
    ]

-- The loop over the chunks; `done` holds the partial summaries so far.
unfoldable pub summarize_all :
    ChatModel → Text → ℕ → ℕ → ℕ → List Text → List (List SchemaMessage) → List Text
unfolding missing_summary
summarize_all model existing budget total i done [] = done
summarize_all model existing budget total i done (chunk ∷ chunks) =
    let prefix = if ltb 0 i && ltb 0 (length done) then join (codes "\n\n") done else existing in
    let partial : Text = elim (summarize_chunk model i chunk prefix budget) [
      | some summary ↦ summary
      | none ↦ missing_summary (length chunk) i total
    ] in
    summarize_all model existing budget total (suc i) (done ++ (partial ∷ [])) chunks

abbrev pub at_least : ℕ → ℕ → ℕ
at_least low n = if ltb n low then low else n

-- A single partial summary is returned as it is.
pub final_summary : ChatModel → ℕ → ℕ → List Text → Text
final_summary model call budget (p ∷ []) = p
final_summary model call budget ps = merge_summaries model call ps budget

unfoldable pub summarize :
    TokenEstimator → ChatModel → List Message → Text → ContextWindowInfo → Option Text
unfolding summarize_all split_into_chunks final_summary
summarize te model messages existing w =
    let schema_messages = to_schema_messages messages in
    let total_tokens = estimate_messages te schema_messages in
    let summary_budget = at_least 1000 (w.usable_tokens / 5) in
    let chunk_budget = at_least 2000 (w.usable_tokens * 2 / 5) in
    let chunks = split_into_chunks te schema_messages chunk_budget in
    let total = length chunks in
    let partials = summarize_all model existing (summary_budget / total) total 0 [] chunks in
    if leb total_tokens chunk_budget
    then summarize_chunk model 0 schema_messages existing summary_budget
    else some (final_summary model total summary_budget partials)

pub data CompactResult : Type 0 where
  compacted : Text → CompactResult
  no_messages not_enough_messages summarization_failed : CompactResult

-- Compact returns the session with its result: on an error it leaves the session alone.
unfoldable pub compact :
    Compactor → Session → ChatModel → ContextWindowInfo → ℕ → Session × CompactResult
compact c s model w now =
    let active = active_messages s in
    let split = find_compaction_split_point c.keep_recent_turns active in
    if length active == 0
    then (s, no_messages)
    else if split == 0
    then (s, not_enough_messages)
    else elim (summarize c.estimator model (take split active) s.compaction_summary w) [
      | none ↦ (s, summarization_failed)
      | some summary ↦
          (apply_compaction s summary (s.first_kept_index + split) now, compacted summary)
    ]
