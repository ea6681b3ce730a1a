-- ===== src/Runtime/RunState.antt =====
-- internal/hivemind/service/agents/domain/entity/run.go and
-- internal/hivemind/service/agents/domain/service/runtime/run_state.go: the life of a run.
-- Times are arguments. The repository that the state machine holds is never called by it.
use echoryn.Prelude.{Text, ℕ, ◌≡◌, ◌≢◌, refl, ap, Bool, true, false, Option, none, some, arith}
use echoryn.Runtime.Session.{TokenUsage}

pub data RunStatus : Type 0 where
  created in_progress completed failed cancelled : RunStatus

unfoldable pub is_terminal : RunStatus → Bool
is_terminal completed = true
is_terminal failed = true
is_terminal cancelled = true
is_terminal created = false
is_terminal in_progress = false

pub record RunError : Type 0 where
  pub code : Text
  pub message : Text

pub record Run : Type 0 where
  pub id : Text
  pub session_id : Text
  pub agent_id : Text
  pub status : RunStatus
  pub input : Text
  pub output : Text
  pub usage : Option TokenUsage
  pub error : Option RunError
  pub model_ref : Text
  pub tool_call_count : ℕ
  pub created_at : ℕ
  pub completed_at : Option ℕ

-- `none` is ErrRunAlreadyDone.
unfoldable pub transition_to_in_progress : Run → Option Run
transition_to_in_progress r = elim r.status [
  | created ↦ some (record r { status = in_progress })
  | _ ↦ none
]

unfoldable pub transition_to_completed : Run → Text → Option TokenUsage → ℕ → Run
transition_to_completed r output usage now = record r {
  status = completed;
  output = output;
  usage = usage;
  completed_at = some now;
}

unfoldable pub transition_to_failed : Run → Text → Text → ℕ → Run
transition_to_failed r code message now = record r {
  status = failed;
  error = some (record { code = code; message = message });
  completed_at = some now;
}

unfoldable pub transition_to_cancelled : Run → ℕ → Run
transition_to_cancelled r now = record r { status = cancelled; completed_at = some now }

-- The transitions that the state machine offers.
pub data Step : Run → Run → Type 0 where
  starts : {r r' : Run} → transition_to_in_progress r ≡ some r' → Step r r'
  completes :
      (r : Run) (output : Text) (usage : Option TokenUsage) (now : ℕ)
      → Step r (transition_to_completed r output usage now)
  fails :
      (r : Run) (code message : Text) (now : ℕ) → Step r (transition_to_failed r code message now)
  cancels : (r : Run) (now : ℕ) → Step r (transition_to_cancelled r now)

pub data Reach (r : Run) : Run → Type 0 where
  here : Reach r r
  next : {s t : Run} → Reach r s → Step s t → Reach r t

-- A run has a time of completion exactly when its status is terminal, and an error if it failed.
pub record IsConsistent (r : Run) : Type 0 where
  pub stamped : is_terminal r.status ≡ true → (now : ℕ) × (r.completed_at ≡ some now)
  pub running : is_terminal r.status ≡ false → r.completed_at ≡ none
  pub explained : r.status ≡ failed → (e : RunError) × (r.error ≡ some e)

starts_lem :
    (r r' : Run)
    → transition_to_in_progress r ≡ some r'
    → (r.status ≡ created) × (r' ≡ record r { status = in_progress })
unfolding transition_to_in_progress
starts_lem r r' e = (ground arith, ground arith)

starts-IsConsistent :
    (r r' : Run) → transition_to_in_progress r ≡ some r' → IsConsistent r → IsConsistent r'
unfolding is_terminal
starts-IsConsistent r r' e v =
    let (at_start, same) = starts_lem r r' e in
    let no_stamp : r.completed_at ≡ none = v.running (rw at_start) in
    rw same (record { stamped = λ h. cc; running = λ h. no_stamp; explained = λ h. cc })

Step-IsConsistent : {r r' : Run} → Step r r' → IsConsistent r → IsConsistent r'
unfolding transition_to_completed transition_to_failed transition_to_cancelled is_terminal
Step-IsConsistent (starts {r} {r'} e) v = starts-IsConsistent r r' e v
Step-IsConsistent (completes r output usage now) v = record {
  stamped = λ _. (now, refl);
  running = λ h. cc;
  explained = λ h. cc;
}
Step-IsConsistent (fails r code message now) v = record {
  stamped = λ _. (now, refl);
  running = λ h. cc;
  explained = λ h. (record { code = code; message = message }, refl);
}
Step-IsConsistent (cancels r now) v = record {
  stamped = λ _. (now, refl);
  running = λ h. cc;
  explained = λ h. cc;
}

-- However a consistent run is driven, such as a new one, it has a time of completion exactly when its
-- status is terminal, and an error when it failed. Other states may have an error too, from an earlier failure.
pub Reach-IsConsistent : {r r' : Run} → IsConsistent r → Reach r r' → IsConsistent r'
Reach-IsConsistent v here = v
Reach-IsConsistent v (next p s) = Step-IsConsistent s (Reach-IsConsistent v p)

-- A step ends in `in_progress` only from `created`, and never in `created`: a run is started at most
-- once.
pub Step-status :
    {r r' : Run}
    → Step r r'
    → (r'.status ≡ in_progress → r.status ≡ created) × (r'.status ≢ created)
unfolding transition_to_completed transition_to_failed transition_to_cancelled
Step-status (starts {r} {r'} e) =
    let (at_start, same) = starts_lem r r' e in (λ h. at_start, λ h. cc (ap (λ x. x.status) same))
Step-status (completes r output usage now) = (λ h. cc, λ h. cc)
Step-status (fails r code message now) = (λ h. cc, λ h. cc)
Step-status (cancels r now) = (λ h. cc, λ h. cc)

Step-terminal :
    {r r' : Run} → Step r r' → is_terminal r.status ≡ true → is_terminal r'.status ≡ true
unfolding is_terminal transition_to_completed transition_to_failed transition_to_cancelled
Step-terminal (starts {r} {r'} e) h =
    let (at_start, same) = starts_lem r r' e in cc (rw at_start at h)
Step-terminal (completes r output usage now) h = refl
Step-terminal (fails r code message now) h = refl
Step-terminal (cancels r now) h = refl
