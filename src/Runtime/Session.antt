-- ===== src/Runtime/Session.antt =====
-- internal/hivemind/service/agents/domain/entity/session.go and the token usage of
-- internal/hivemind/service/agents/domain/entity/run.go.
-- Times are arguments. Token counts are natural numbers and do not overflow.
use echoryn.Prelude.{
  Text, Assoc, length, drop, is_empty, ℕ, zero, suc, ◌+◌, ◌≤◌, ◌≡◌, ◌++◌, refl, Bool, not, Option,
  none, some, List, [], ◌∷◌, if◌then◌else◌, leb, arith, leb→le, Bool-cases, inl, inr,
}
use echoryn.Runtime.Message.{Message}

pub record TokenUsage : Type 0 where
  pub prompt_tokens : ℕ
  pub completion_tokens : ℕ
  pub total_tokens : ℕ

pub record Session : Type 0 where
  pub id : Text
  pub agent_id : Text
  pub parent_session_id : Text
  pub messages : List Message
  pub usage : Option TokenUsage
  pub metadata : Assoc Text
  pub compaction_summary : Text
  pub compaction_count : ℕ
  pub first_kept_index : ℕ
  pub created_at : ℕ
  pub updated_at : ℕ

unfoldable pub append_message : Session → Message → ℕ → Session
append_message s m now = record s { messages = s.messages ++ (m ∷ []); updated_at = now }

unfoldable pub append_messages : Session → List Message → ℕ → Session
append_messages s ms now = record s { messages = s.messages ++ ms; updated_at = now }

abbrev pub no_usage : TokenUsage
no_usage = record { prompt_tokens = 0; completion_tokens = 0; total_tokens = 0 }

abbrev pub usage_or_zero : Option TokenUsage → TokenUsage
usage_or_zero none = no_usage
usage_or_zero (some u) = u

unfoldable pub add_usage : Session → Option TokenUsage → Session
add_usage s none = s
add_usage s (some u) =
    let old = usage_or_zero s.usage in
    record s {
      usage = some (record {
        prompt_tokens = old.prompt_tokens + u.prompt_tokens;
        completion_tokens = old.completion_tokens + u.completion_tokens;
        total_tokens = old.total_tokens + u.total_tokens;
      });
    }

unfoldable pub active_messages : Session → List Message
active_messages s =
    if leb (length s.messages) s.first_kept_index then [] else drop s.first_kept_index s.messages

unfoldable pub apply_compaction : Session → Text → ℕ → ℕ → Session
apply_compaction s summary kept_from now = record s {
  compaction_summary = summary;
  first_kept_index = kept_from;
  compaction_count = s.compaction_count + 1;
  updated_at = now;
}

unfoldable pub has_compaction : Session → Bool
has_compaction s = not (is_empty s.compaction_summary)

unfoldable pub is_sub_agent_session : Session → Bool
is_sub_agent_session s = not (is_empty s.parent_session_id)

-- The history is summarized up to an index within it.
abbrev pub IsWithin : Session → Type 0
IsWithin s = s.first_kept_index ≤ length s.messages

drop-all : {A : Type 0} (n : ℕ) (xs : List A) → length xs ≤ n → drop n xs ≡ []
drop-all zero [] h = refl
drop-all zero (x ∷ xs) h = absurd (omega arith)
drop-all (suc n) [] h = refl
drop-all (suc n) (x ∷ xs) h = drop-all n xs (omega arith)

-- The active messages are the history without what a summary replaces.
pub active_messages-drop : (s : Session) → active_messages s ≡ drop s.first_kept_index s.messages
unfolding active_messages
active_messages-drop s = elim (Bool-cases (leb (length s.messages) s.first_kept_index)) [
  | inl e ↦ rw (e, drop-all s.first_kept_index s.messages (leb→le _ _ e)) refl
  | inr e ↦ rw e refl
]

drop-append :
    {A : Type 0} (n : ℕ) (xs ys : List A) → n ≤ length xs → drop n (xs ++ ys) ≡ drop n xs ++ ys
drop-append zero xs ys h = refl
drop-append (suc n) [] ys h = absurd (omega arith)
drop-append (suc n) (x ∷ xs) ys h = drop-append n xs ys (omega arith)
