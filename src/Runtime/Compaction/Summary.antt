-- ===== src/Runtime/Compaction/Summary.antt =====
-- internal/hivemind/service/agents/domain/service/runtime/compaction.go: what summarize, summarizeInStages and
-- mergeSummaries make of the answers of the model.
use mathlib.Core.List.{flatten}
use echoryn.Prelude.{
  Text, if◌then◌else◌, ◌&&◌, codes, length, length-append, join, All, ℕ, suc, ◌*◌, ◌/◌, ◌≤◌, ◌<◌,
  ◌≡◌, ◌++◌, refl, inl, inr, Option, some, none, List, [], ◌∷◌, ltb, leb, true, arith, Bool-cases,
  Option-cases,
}
use echoryn.Runtime.Message.{Message, SchemaMessage, to_schema_messages}
use echoryn.Runtime.Tokens.{TokenEstimator, estimate_messages}
use echoryn.Runtime.Window.{ContextWindowInfo}
use echoryn.Runtime.Compaction.{
  ChatModel, summarize, summarize_chunk, summarize_all, split_into_chunks, merge_summaries,
  final_summary, at_least,
}
use echoryn.Runtime.Compaction.Prompts.{
  trim_space, chunk_prompt, merge_prompt, chunk_system, merge_system, missing_summary,
}
use echoryn.Runtime.Compaction.Chunks.{IsChunk, split_into_chunks_correct}

-- What the model is told before the next chunk: the summaries so far, or the earlier summary.
abbrev pub prefix_of : Text → List Text → Text
prefix_of existing [] = existing
prefix_of existing (d ∷ ds) = join (codes "\n\n") (d ∷ ds)

-- After `before`, each chunk in turn has the trimmed answer of the model, or a note that it has none.
pub data Partials (model : ChatModel) (existing : Text) (budget total : ℕ)
    : List Text → List (List SchemaMessage) → List Text → Type 0 where
  no_chunk : {before : List Text} → Partials model existing budget total before [] before
  told :
      {before : List Text} {chunk : List SchemaMessage} {chunks : List (List SchemaMessage)}
      {all : List Text} (content : Text)
      → model (length before) chunk_system (chunk_prompt chunk (prefix_of existing before) budget)
        ≡ some content
      → Partials model existing budget total (before ++ (trim_space content ∷ [])) chunks all
      → Partials model existing budget total before (chunk ∷ chunks) all
  untold :
      {before : List Text} {chunk : List SchemaMessage} {chunks : List (List SchemaMessage)}
      {all : List Text}
      → model (length before) chunk_system (chunk_prompt chunk (prefix_of existing before) budget)
        ≡ none
      → Partials model existing budget total
          (before ++ (missing_summary (length chunk) (length before) total ∷ []))
          chunks
          all
      → Partials model existing budget total before (chunk ∷ chunks) all

-- One summary is final, more are merged by the model, or joined where it fails.
pub data Merged (model : ChatModel) (call budget : ℕ) : List Text → Text → Type 0 where
  alone : {p : Text} → Merged model call budget (p ∷ []) p
  merged :
      {ps : List Text} (content : Text)
      → ¬ (length ps ≡ 1)
      → model call merge_system (merge_prompt ps budget) ≡ some content
      → Merged model call budget ps (trim_space content)
  joined :
      {ps : List Text}
      → ¬ (length ps ≡ 1)
      → model call merge_system (merge_prompt ps budget) ≡ none
      → Merged model call budget ps (join (codes "\n\n---\n\n") ps)

-- The tokens of a summary, and those of a chunk.
abbrev pub summary_budget : ContextWindowInfo → ℕ
summary_budget w = at_least 1000 (w.usable_tokens / 5)

abbrev pub chunk_budget : ContextWindowInfo → ℕ
chunk_budget w = at_least 2000 (w.usable_tokens * 2 / 5)

-- A text that the model gives for messages and an earlier summary: of all messages at once where they fit into one
-- chunk, otherwise chunk by chunk.
pub data IsSummary (te : TokenEstimator) (model : ChatModel) (w : ContextWindowInfo)
    (ms : List SchemaMessage) (existing : Text) : Text → Type 0 where
  at_once :
      (content : Text)
      → estimate_messages te ms ≤ chunk_budget w
      → model 0 chunk_system (chunk_prompt ms existing (summary_budget w)) ≡ some content
      → IsSummary te model w ms existing (trim_space content)
  in_chunks :
      {summary : Text} (chunks : List (List SchemaMessage)) (partials : List Text)
      → chunk_budget w < estimate_messages te ms
      → flatten chunks ≡ ms
      → All (IsChunk te (chunk_budget w)) chunks
      → Partials model existing
          (summary_budget w / length chunks)
          (length chunks)
          []
          chunks
          partials
      → Merged model (length chunks) (summary_budget w) partials summary
      → IsSummary te model w ms existing summary

-- The model has no summary: the messages fit into one chunk, and it fails on that.
abbrev pub IsUnanswered :
    TokenEstimator → ChatModel → ContextWindowInfo → List SchemaMessage → Text → Type 0
IsUnanswered te model w ms existing =
    (estimate_messages te ms ≤ chunk_budget w)
    × (model 0 chunk_system (chunk_prompt ms existing (summary_budget w)) ≡ none)

-- One of the two is the case.
abbrev pub Summarized :
    TokenEstimator
    → ChatModel
    → ContextWindowInfo
    → List SchemaMessage
    → Text
    → Option Text
    → Type 0
Summarized te model w ms existing none = IsUnanswered te model w ms existing
Summarized te model w ms existing (some summary) = IsSummary te model w ms existing summary

prefix_of-lem :
    (existing : Text) (before : List Text)
    → (if ltb 0 (length before) && ltb 0 (length before)
        then join (codes "\n\n") before
        else existing)
      ≡ prefix_of existing before
prefix_of-lem existing [] = refl
prefix_of-lem existing (d ∷ ds) =
    let filled : ltb 0 (suc (length ds)) ≡ true = ground arith in rw filled refl

grown : (before : List Text) (p : Text) → suc (length before) ≡ length (before ++ (p ∷ []))
grown before p = omega (arith, length-append before (p ∷ []))

summarize_all-Partials :
    (model : ChatModel) (existing : Text) (budget total : ℕ) (before : List Text)
    (chunks : List (List SchemaMessage))
    → Partials model existing budget total before chunks
        (summarize_all model existing budget total (length before) before chunks)
unfolding summarize_all summarize_chunk
summarize_all-Partials model existing budget total before [] = no_chunk
summarize_all-Partials model existing budget total before (chunk ∷ chunks) =
    let prompt = chunk_prompt chunk (prefix_of existing before) budget in
    elim (Option-cases (model (length before) chunk_system prompt)) [
      | inl e ↦
          let p = missing_summary (length chunk) (length before) total in
          rw (prefix_of-lem existing before, e, grown before p)
            (untold e
              (summarize_all-Partials model existing budget total (before ++ (p ∷ [])) chunks))
      | inr (content, e) ↦
          let p = trim_space content in
          rw (prefix_of-lem existing before, e, grown before p)
            (told content e
              (summarize_all-Partials model existing budget total (before ++ (p ∷ [])) chunks))
    ]

merge_summaries-Merged :
    (model : ChatModel) (call budget : ℕ) (ps : List Text)
    → ¬ (length ps ≡ 1)
    → Merged model call budget ps (merge_summaries model call ps budget)
unfolding merge_summaries
merge_summaries-Merged model call budget ps h =
    by_answer (model call merge_system (merge_prompt ps budget)) refl
  where
    by_answer :
        (o : Option Text)
        → model call merge_system (merge_prompt ps budget) ≡ o
        → Merged model call budget ps
            (elim o [ none ↦ join (codes "\n\n---\n\n") ps | some content ↦ trim_space content ])
    by_answer none e = joined h e
    by_answer (some content) e = merged content h e

final_summary-Merged :
    (model : ChatModel) (call budget : ℕ) (ps : List Text)
    → Merged model call budget ps (final_summary model call budget ps)
unfolding final_summary
final_summary-Merged model call budget [] =
    merge_summaries-Merged model call budget [] (λ e. omega (arith, e))
final_summary-Merged model call budget (p ∷ []) = alone
final_summary-Merged model call budget (p ∷ q ∷ ps) =
    merge_summaries-Merged model call budget (p ∷ q ∷ ps) (λ e. omega (arith, e))

summarize_chunk-Summarized :
    (te : TokenEstimator) (model : ChatModel) (ms : List SchemaMessage) (existing : Text)
    (w : ContextWindowInfo)
    → estimate_messages te ms ≤ chunk_budget w
    → Summarized te model w ms existing (summarize_chunk model 0 ms existing (summary_budget w))
unfolding summarize_chunk
summarize_chunk-Summarized te model ms existing w h =
    by_answer (model 0 chunk_system (chunk_prompt ms existing (summary_budget w))) refl
  where
    by_answer :
        (o : Option Text)
        → model 0 chunk_system (chunk_prompt ms existing (summary_budget w)) ≡ o
        → Summarized te model w ms existing
            (elim o [ none ↦ none | some content ↦ some (trim_space content) ])
    by_answer none e = (h, e)
    by_answer (some content) e = at_once content h e

-- Messages that fit into one chunk are summarized by one answer of the model, and there is no summary only where it
-- gives none; others are cut into chunks, of which each has an answer or a note, and these are merged.
pub summarize-Summarized :
    (te : TokenEstimator) (model : ChatModel) (ms : List Message) (existing : Text)
    (w : ContextWindowInfo)
    → Summarized te model w (to_schema_messages ms) existing (summarize te model ms existing w)
unfolding summarize
summarize-Summarized te model ms existing w =
    let sent = to_schema_messages ms in
    let chunks = split_into_chunks te sent (chunk_budget w) in
    let (whole, fit) = split_into_chunks_correct te sent (chunk_budget w) in
    let budget = summary_budget w / length chunks in
    let partials = summarize_all model existing budget (length chunks) 0 [] chunks in
    elim (Bool-cases (leb (estimate_messages te sent) (chunk_budget w))) [
      | inl short ↦ rw short (summarize_chunk-Summarized te model sent existing w (ground arith))
      | inr long ↦ rw long (
          in_chunks chunks partials (ground arith) whole fit
            (summarize_all-Partials model existing budget (length chunks) [] chunks)
            (final_summary-Merged model (length chunks) (summary_budget w) partials))
    ]
