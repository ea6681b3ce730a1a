-- ===== src/Llm/Fallback.antt =====
-- internal/hivemind/service/llm/domain/entity/model_fallback.go and
-- internal/hivemind/service/llm/domain/service/model_fallback.go: trying models in order.
-- The model repository, the model manager and the operation to run are the fields of `Env`, each a
-- function of the model: `Candidates` lists a model once, so none is asked twice in one run.
-- Logging is left out; the calls of the `onError` callback are returned in order.
pub mod Candidates
pub mod Fates
pub mod Loop
pub mod Attempts
use echoryn.Prelude.{
  Text, codes, same, is_empty, any, decimal, join, length, ℕ, suc, ◌+◌, ◌≡◌, ◌++◌, Bool, true,
  false, not, ◌&&◌, ◌||◌, Option, none, some, List, [], ◌∷◌, if◌then◌else◌, ◌==◌, ltb, leb,
}
use echoryn.Llm.Failover.{
  FailoverReason, unknown, rate_limit, Error, FailoverError, reason_string, same_reason,
  error_string, classify_error, failover_error_from_cause, should_failover,
}

pub record ModelRef : Type 0 where
  pub provider_id : Text
  pub model_id : Text

unfoldable pub ref_string : ModelRef → Text
ref_string r = r.provider_id ++ (codes "/" ++ r.model_id)

pub data ModelStatus : Type 0 where
  ready disabled errored cool_down : ModelStatus

pub record FallbackConfig : Type 0 where
  pub primary : ModelRef
  pub fallbacks : List ModelRef
  pub max_attempts : ℕ
  pub skip_on_cooldown : Bool

-- The `add` closure over the rest of the list: `seen` holds the keys that are taken.
unfoldable pub add_all : List Text → List ModelRef → List ModelRef
unfolding ref_string
add_all seen [] = []
add_all seen (r ∷ rs) =
    let old = add_all seen rs in
    let fresh = r ∷ add_all (ref_string r ∷ seen) rs in
    if any (λ k. same k (ref_string r)) seen then old else fresh

unfoldable pub candidates : FallbackConfig → List ModelRef
unfolding add_all
candidates c = add_all [] (c.primary ∷ c.fallbacks)

unfoldable pub effective_max_attempts : FallbackConfig → ℕ
effective_max_attempts c =
    let total = 1 + length c.fallbacks in
    if ltb 0 c.max_attempts && ltb c.max_attempts total then c.max_attempts else total

pub record FallbackAttempt : Type 0 where
  pub ref : ModelRef
  pub error : Text
  pub reason : FailoverReason
  pub status_code : ℕ
  pub skipped : Bool
  pub skip_reason : Text

-- `winner` is the Value with the Ref that produced it; it is `none` where OK is false.
pub record FallbackResult (V : Type 0) : Type 0 where
  pub winner : Option (V × ModelRef)
  pub attempts : List FallbackAttempt

unfoldable pub is_ok : {V : Type 0} → FallbackResult V → Bool
is_ok r = elim r.winner [ some w ↦ true | none ↦ false ]

unfoldable pub attempt_string : FallbackAttempt → List Text
unfolding ref_string same_reason reason_string
attempt_string a =
    if a.skipped
    then (ref_string a.ref ++ (codes ": skipped (" ++ (a.skip_reason ++ codes ")"))) ∷ []
    else if is_empty a.error
    then []
    else (ref_string a.ref
        ++ (codes ": "
            ++ (a.error
                ++ (if same_reason a.reason unknown
                    then codes ""
                    else codes " (" ++ (reason_string a.reason ++ codes ")")))))
      ∷ []

summary_parts : List FallbackAttempt → List Text
unfolding attempt_string
summary_parts [] = []
summary_parts (a ∷ as') = attempt_string a ++ summary_parts as'

unfoldable pub summary : {V : Type 0} → FallbackResult V → Text
unfolding summary_parts
summary r = elim r.attempts [
  | [] ↦ codes "no attempts"
  | a ∷ as' ↦ join (codes " | ") (summary_parts (a ∷ as'))
]

unfoldable pub all_failed_error : {V : Type 0} → FallbackResult V → Option Text
unfolding is_ok summary
all_failed_error r =
    if is_ok r
    then none
    else some (
        codes "all models failed ("
        ++ (decimal (length r.attempts) ++ (codes " attempts): " ++ summary r)))

pub data Outcome (A : Type 0) : Type 0 where
  done : A → Outcome A
  failed : Error → Outcome A

-- What one run asks of the repository, the manager and the operation.
pub record Env (M V : Type 0) : Type 0 where
  pub find_by_ref : ModelRef → Option ModelStatus
  pub build_chat_model : ModelRef → Outcome M
  pub run : M → Outcome V

unfoldable pub in_cooldown : {M V : Type 0} → Env M V → Bool → ModelRef → Bool
in_cooldown env skip ref =
    if skip then elim (env.find_by_ref ref) [ some cool_down ↦ true | _ ↦ false ] else false

-- One call of onError: the attempt, its number, and the number of candidates.
abbrev pub ErrorCall : Type 0
ErrorCall = FallbackAttempt × ℕ × ℕ

pub record FallbackRun (V : Type 0) : Type 0 where
  pub result : FallbackResult V
  pub calls : List ErrorCall

abbrev pub record_attempt :
    {V : Type 0} → FallbackAttempt → List ErrorCall → FallbackRun V → FallbackRun V
record_attempt a calls r = record {
  result = record { winner = r.result.winner; attempts = a ∷ r.result.attempts };
  calls = calls ++ r.calls;
}

abbrev pub stop : {V : Type 0} → Option (V × ModelRef) → FallbackRun V
stop w = record { result = record { winner = w; attempts = [] }; calls = [] }

unfoldable pub skip_attempt : ModelRef → FallbackAttempt
skip_attempt ref = record {
  ref = ref;
  error = codes "";
  reason = rate_limit;
  status_code = 0;
  skipped = true;
  skip_reason = codes "provider " ++ (ref.provider_id ++ codes " is in cooldown");
}

unfoldable pub build_attempt : ModelRef → Error → FallbackAttempt
build_attempt ref e = record {
  ref = ref;
  error = error_string e;
  reason = classify_error (some e);
  status_code = 0;
  skipped = false;
  skip_reason = codes "";
}

unfoldable pub run_attempt : ModelRef → FailoverError → FallbackAttempt
run_attempt ref fe = record {
  ref = ref;
  error = fe.message;
  reason = fe.reason;
  status_code = fe.status_code;
  skipped = false;
  skip_reason = codes "";
}

-- The loop of RunWithFallback from candidate `i` on; `rest` is what the later candidates give.
module _ {M V : Type 0} (env : Env M V) (skip : Bool) (max total : ℕ) where
  pub ran : ℕ → ModelRef → Outcome V → FallbackRun V → FallbackRun V
  unfolding run_attempt
  ran i ref (done v) rest = stop (some (v, ref))
  ran i ref (failed e) rest =
      let fe = failover_error_from_cause e ref.provider_id ref.model_id in
      let a = run_attempt ref fe in
      record_attempt a ((a, i + 1, total) ∷ [])
        (if should_failover fe.reason then rest else stop none)

  pub built : ℕ → ModelRef → Outcome M → FallbackRun V → FallbackRun V
  unfolding ran build_attempt
  built i ref (failed e) rest =
      let a = build_attempt ref e in record_attempt a ((a, i + 1, total) ∷ []) rest
  built i ref (done m) rest = ran i ref (env.run m) rest

  pub try_candidate : ℕ → ModelRef → FallbackRun V → FallbackRun V
  unfolding built in_cooldown skip_attempt
  try_candidate i ref rest =
      if in_cooldown env skip ref
      then record_attempt (skip_attempt ref) [] rest
      else built i ref (env.build_chat_model ref) rest

  unfoldable pub fallback_loop : ℕ → List ModelRef → FallbackRun V
  unfolding try_candidate
  fallback_loop i [] = stop none
  fallback_loop i (ref ∷ refs) =
      if leb max i then stop none else try_candidate i ref (fallback_loop (suc i) refs)

unfoldable pub run_with_fallback : {M V : Type 0} → Env M V → FallbackConfig → FallbackRun V
run_with_fallback env config =
    let refs = candidates config in
    fallback_loop env config.skip_on_cooldown (effective_max_attempts config) (length refs) 0 refs

-- RunChatWithFallback: the result, with the error that is returned beside it.
unfoldable pub run_chat_with_fallback :
    {M V : Type 0} → Env M V → FallbackConfig → FallbackResult V × Option Text
unfolding is_ok
run_chat_with_fallback env config =
    let result = (run_with_fallback env config).result in
    if is_ok result then (result, none) else (result, all_failed_error result)

pub first_built : {M V : Type 0} → Env M V → Bool → List ModelRef → Option (M × ModelRef)
unfolding in_cooldown
first_built env skip [] = none
first_built env skip (ref ∷ refs) =
    let rest = first_built env skip refs in
    if in_cooldown env skip ref
    then rest
    else elim (env.build_chat_model ref) [ done m ↦ some (m, ref) | failed e ↦ rest ]

-- GetChatModelWithFallback; `none` is its error.
unfoldable pub get_chat_model_with_fallback :
    {M V : Type 0} → Env M V → FallbackConfig → Option (M × ModelRef)
unfolding first_built
get_chat_model_with_fallback env config =
    first_built env config.skip_on_cooldown (candidates config)
