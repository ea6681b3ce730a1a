-- ===== src/Runtime/Context/Layout.antt =====
-- internal/hivemind/service/agents/domain/service/runtime/context_builder.go: what Build sends.
use mathlib.Core.List.{append_assoc}
use echoryn.Prelude.{
  Text, if◌then◌else◌, is_empty, length, drop, ◌≡◌, ◌++◌, refl, inl, inr, false, Bool-cases, Option,
  none, some, List, [], ◌∷◌, ◌==◌, arith, sym, tally, ap, codes, Option-cases, not,
}
use echoryn.Runtime.Agent.{Agent}
use echoryn.Runtime.Message.{Message, SchemaMessage, system, user, to_schema_messages}
use echoryn.Runtime.Session.{Session, has_compaction, active_messages, active_messages-drop}
use echoryn.Runtime.Tokens.{estimate_messages}
use echoryn.Runtime.Window.{ContextWindowInfo}
use echoryn.Runtime.Pruner.{is_tool, find_protection_boundary}
use echoryn.Runtime.Pruner.Result.{Pruned, prune_sound}
use echoryn.Runtime.Context.{
  ContextBuilder, build, history, limit_history_turns, resolve_system_prompt, message_of,
  summary_message, is_user, spoken, Role, has_compaction, build_prompt_context,
}
use echoryn.Runtime.Context.Turns.{IsLimited, limit_history_turns_correct, Kept}
use echoryn.Prompt.Types.{PromptContext}
use echoryn.Prompt.Pipeline.{Sorting, Pipeline, assemble}

-- The messages of a session that no summary replaces.
abbrev pub unsummarized : Option Session → List Message
unsummarized none = []
unsummarized (some s) = drop s.first_kept_index s.messages

length-zero : {A : Type 0} (xs : List A) → length xs ≡ 0 → xs ≡ []
length-zero [] e = refl
length-zero (x ∷ xs) e = absurd (omega arith)

no_turns : tally is_user [] ≡ 0
unfolding tally
no_turns = refl

history-Kept :
    (cb : ContextBuilder) (session : Option Session)
    → Kept cb.max_history_turns (unsummarized session) (history cb session)
unfolding history
history-Kept cb none = ([], refl, (refl, inr (omega (arith, no_turns))))
history-Kept cb (some s) = elim (Bool-cases (length (active_messages s) == 0)) [
  | inl empty ↦
      let e = length-zero (active_messages s) (ground arith) in
      rw (sym (active_messages-drop s), empty, e) ([], refl, (refl, inr (omega (arith, no_turns))))
  | inr filled ↦ elim (Bool-cases (cb.max_history_turns == 0)) [
    | inl free ↦
        rw (sym (active_messages-drop s), filled, free) ([], refl, (refl, inl (ground arith)))
    | inr limited ↦
        let e : history cb (some s) ≡ limit_history_turns cb (active_messages s) =
          rw (filled, limited) refl in
        rw (sym (active_messages-drop s), e) (limit_history_turns_correct cb (active_messages s))
  ]
]

Pruned-last :
    (ms : List SchemaMessage) (m : SchemaMessage) (os : List SchemaMessage)
    → is_tool m ≡ false
    → Pruned (ms ++ (m ∷ [])) os
    → (rest : List SchemaMessage) × (os ≡ rest ++ (m ∷ []))
Pruned-last [] m [] h p = elim p [ ]
Pruned-last [] m (o ∷ []) h p = ([], ap (λ x. x ∷ []) (p.1 h))
Pruned-last [] m (o ∷ o' ∷ os) h p = elim p.2 [ ]
Pruned-last (x ∷ ms) m [] h p = elim p [ ]
Pruned-last (x ∷ ms) m (o ∷ os) h p =
    let (rest, e) = Pruned-last ms m os h p.2 in (o ∷ rest, ap (◌∷◌ o) e)

Pruned-ends :
    (m : SchemaMessage) (ms : List SchemaMessage) (n : SchemaMessage) (os : List SchemaMessage)
    → is_tool m ≡ false
    → is_tool n ≡ false
    → Pruned (m ∷ ms ++ (n ∷ [])) os
    → (rest : List SchemaMessage) × (os ≡ m ∷ rest ++ (n ∷ []))
Pruned-ends m ms n [] h k p = elim p [ ]
Pruned-ends m ms n (o ∷ os) h k p =
    let (rest, e) = Pruned-last ms n os k p.2 in (rest, cc (p.1 h, e))

last_apart :
    {A : Type 0} (xs ys zs ws : List A) → xs ++ (ys ++ (zs ++ ws)) ≡ (xs ++ (ys ++ zs)) ++ ws
last_apart xs ys zs ws = rw (append_assoc, append_assoc) refl

-- The messages before they are pruned, for a text of the system prompt and a history.
abbrev pub laid_out :
    Option Session → List Message → Text → Text → List Message → List SchemaMessage
laid_out session injected input prompt kept =
    message_of system prompt
    ++ (summary_message session
        ++ (to_schema_messages injected ++ (to_schema_messages kept ++ message_of user input)))

-- A text is sent as one message of a role, unless it is empty.
abbrev pub IsShown : Role → Text → List SchemaMessage → Type 0
IsShown r [] ms = ms ≡ []
IsShown r (c ∷ cs) ms =
    ms ≡ record { role = r; content = c ∷ cs; name = []; tool_calls = []; tool_call_id = [] } ∷ []

message_of-IsShown : (r : Role) (t : Text) → IsShown r t (message_of r t)
message_of-IsShown r [] = refl
message_of-IsShown r (c ∷ cs) = refl

-- The text that introduces a summary, unless there is none.
abbrev pub IsIntroduced : Text → List SchemaMessage → Type 0
IsIntroduced [] ms = ms ≡ []
IsIntroduced (c ∷ cs) ms =
    ms
    ≡ record {
      role = system;
      content = codes "[Conversation Summary]\n" ++ (c ∷ cs);
      name = [];
      tool_calls = [];
      tool_call_id = [];
    }
      ∷ []

-- The message that holds the summary of a session.
abbrev pub IsSummary : Option Session → List SchemaMessage → Type 0
IsSummary none ms = ms ≡ []
IsSummary (some s) ms = IsIntroduced s.compaction_summary ms

introduced :
    (t : Text)
    → IsIntroduced t
        (if not (is_empty t) then message_of system (codes "[Conversation Summary]\n" ++ t) else [])
introduced [] = refl
introduced (c ∷ cs) = refl

summary_message-IsSummary : (session : Option Session) → IsSummary session (summary_message session)
unfolding has_compaction
summary_message-IsSummary none = refl
summary_message-IsSummary (some s) = introduced s.compaction_summary

-- The prompt of the agent stands in for an assembled text that is empty.
abbrev pub IsChosen : Text → Text → Text → Type 0
IsChosen own [] prompt = prompt ≡ own
IsChosen own (c ∷ cs) prompt = prompt ≡ c ∷ cs

-- The context that the caller gives, or the one of the agent and the session.
abbrev pub context_of : Text → Agent → Option Session → Option PromptContext → PromptContext
context_of now agent session none = build_prompt_context now agent session
context_of now agent session (some given) = given

-- The system prompt: what the pipeline assembles, or the prompt of the agent.
abbrev pub IsPrompt :
    Sorting → Text → Agent → Option Session → Option PromptContext → Option Pipeline → Text → Type 0
IsPrompt order now agent session given none prompt = prompt ≡ agent.system_prompt
IsPrompt order now agent session given (some p) prompt =
    IsChosen agent.system_prompt (assemble order (context_of now agent session given) p).0 prompt

chosen :
    (own t : Text) (cb : ContextBuilder)
    → IsChosen own t (if◌then◌else◌ {A = Text × ContextBuilder} (is_empty t) (own, cb) (t, cb)).0
chosen own [] cb = refl
chosen own (c ∷ cs) cb = refl

resolve_system_prompt-IsPrompt :
    (order : Sorting) (now : Text) (agent : Agent) (session : Option Session)
    (given : Option PromptContext) (cb : ContextBuilder)
    → IsPrompt order now agent session given cb.pipeline
        (resolve_system_prompt order now agent session given cb).0
unfolding resolve_system_prompt
resolve_system_prompt-IsPrompt order now agent session given cb = elim (Option-cases cb.pipeline) [
  | inl e ↦ rw e refl
  | inr (p, e) ↦ rw e (assembled p given)
]
  where
    assembled :
        (p : Pipeline) (g : Option PromptContext)
        → IsPrompt order now agent session g
            (some p)
            (resolve_system_prompt order now agent session g (record cb { pipeline = some p })).0
    assembled p none = chosen agent.system_prompt _ _
    assembled p (some pc) = chosen agent.system_prompt _ _

module _ (order : Sorting) (now : Text) (agent : Agent) (session : Option Session) (input : Text)
    (injected : List Message) (window : ContextWindowInfo) (prompt_ctx : Option PromptContext)
    (cb : ContextBuilder) where
  build-laid_out :
      let r = (build order now agent session input injected window prompt_ctx cb).0 in
      let prompt = (resolve_system_prompt order now agent session prompt_ctx cb).0 in
      (before kept : List Message) × let sent = laid_out session injected input prompt kept in
        let b = find_protection_boundary cb.pruner.config.keep_last_assistants sent in
        (before ++ kept ≡ unsummarized session)
        × IsLimited cb.max_history_turns before kept r.history_trimmed
        × Pruned sent r.messages
        × (drop b r.messages ≡ drop b sent)
        × (r.estimated_tokens ≡ estimate_messages cb.pruner.estimator r.messages)
  unfolding build
  build-laid_out =
      let prompt = (resolve_system_prompt order now agent session prompt_ctx cb).0 in
      let kept = (history cb session).0 in
      let (before, whole, limited) = history-Kept cb session in
      let ((pruned, protected), size) =
        prune_sound cb.pruner (laid_out session injected input prompt kept) window.usable_tokens in
      (before, kept, (whole, limited, pruned, protected, size))

  -- Build prunes, in this order, the system prompt, the summary of the session, the injected messages, the end of
  -- the history that is neither summarized nor beyond the limit of turns, and the input of the user. The system
  -- prompt is what the pipeline assembles, or that of the agent where there is no pipeline or the assembled text is
  -- empty. Prompt, summary and input are one message each, the summary with its heading, or none where the text is
  -- empty. Pruning changes contents of results of tools alone, and none after the boundary; the size that is
  -- returned is that of the messages that are.
  pub build_correct :
      let r = (build order now agent session input injected window prompt_ctx cb).0 in
      (prompt : Text) × (before kept : List Message) × (first summary last : List SchemaMessage)
      × let sent =
          first
          ++ (summary ++ (to_schema_messages injected ++ (to_schema_messages kept ++ last))) in
        let b = find_protection_boundary cb.pruner.config.keep_last_assistants sent in
        IsPrompt order now agent session prompt_ctx cb.pipeline prompt
        × IsShown system prompt first
        × IsSummary session summary
        × IsShown user input last
        × (before ++ kept ≡ unsummarized session)
        × IsLimited cb.max_history_turns before kept r.history_trimmed
        × Pruned sent r.messages
        × (drop b r.messages ≡ drop b sent)
        × (r.estimated_tokens ≡ estimate_messages cb.pruner.estimator r.messages)
  build_correct =
      let prompt = (resolve_system_prompt order now agent session prompt_ctx cb).0 in
      let (before, kept, facts) = build-laid_out in
      (
        prompt,
        before,
        kept,
        message_of system prompt,
        summary_message session,
        message_of user input,
        (
          resolve_system_prompt-IsPrompt order now agent session prompt_ctx cb,
          message_of-IsShown system prompt,
          summary_message-IsSummary session,
          message_of-IsShown user input,
          facts.0,
          facts.1,
          facts.2,
          facts.3,
          facts.4,
        ),
      )

  prompt-nonempty :
      is_empty agent.system_prompt ≡ false
      → is_empty (resolve_system_prompt order now agent session prompt_ctx cb).0 ≡ false
  unfolding resolve_system_prompt
  prompt-nonempty h = ground (arith, h)

  laid_out-ends :
      (prompt : Text) (kept : List Message)
      → is_empty prompt ≡ false
      → is_empty input ≡ false
      → (middle : List SchemaMessage) × (laid_out session injected input prompt kept
          ≡ spoken system prompt ∷ middle ++ (spoken user input ∷ []))
  laid_out-ends prompt kept h k =
      let middle =
        summary_message session ++ (to_schema_messages injected ++ to_schema_messages kept) in
      (
        middle,
        rw (h, k)
            (ap (◌∷◌ (spoken system prompt)) (
              last_apart (summary_message session) (to_schema_messages injected)
                (to_schema_messages kept) (spoken user input ∷ []))),
      )

  -- Where the agent has a system prompt and the user an input, what Build sends starts with a system message that
  -- is not empty, and ends with the input, unchanged.
  pub build-ends :
      is_empty agent.system_prompt ≡ false
      → is_empty input ≡ false
      → (prompt : Text) × (middle : List SchemaMessage) × (is_empty prompt ≡ false)
        × ((build order now agent session input injected window prompt_ctx cb).0.messages
            ≡ spoken system prompt ∷ middle ++ (spoken user input ∷ []))
  unfolding is_tool
  build-ends h k =
      let prompt = (resolve_system_prompt order now agent session prompt_ctx cb).0 in
      let (before, kept, facts) = build-laid_out in
      let shown = prompt-nonempty h in
      let (middle, e) = laid_out-ends prompt kept shown k in
      let (rest, ends) = Pruned-ends _ middle _ _ refl refl (rw e at facts.2) in
      (prompt, rest, shown, ends)
