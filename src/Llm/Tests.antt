-- ===== src/Llm/Tests.antt =====
-- internal/hivemind/service/llm: runs of the model, and the theorems at concrete inputs.
use mathlib.Core.List.{Sublist}
use echoryn.Prelude.{
  Text, codes, decimal, ℕ, ◌≤◌, ◌<◌, ◌≡◌, refl, true, false, ◌↔◌, none, some, [], ◌∷◌, map, arith,
  same, lower_rune, contains, join,
}
use echoryn.Llm.Failover.{
  format, auth, raw, RawError, classify_error, classify_from_message, failover_error_from_cause,
  should_failover, is_retryable, classify_from_status,
}
use echoryn.Llm.Failover.Rules.{should_failover_iff}
use echoryn.Llm.Fallback.{
  in_cooldown, ModelRef, ready, cool_down, FallbackConfig, candidates, effective_max_attempts, done,
  failed, Env, run_with_fallback, run_chat_with_fallback, all_failed_error, fallback_loop, summary,
  is_ok,
}
use echoryn.Llm.Fallback.Candidates.{
  find_key, IsDistinct, candidates_correct, effective_max_attempts_bounds,
}
use echoryn.Llm.Fallback.Fates
use echoryn.Llm.Fallback.Fates.{Passed, Aborts}
use echoryn.Llm.Fallback.Loop.{Found}
use echoryn.Llm.Fallback.Attempts.{run_with_fallback_iff, run_with_fallback_stops}

abbrev model : Text → Text → ModelRef
model p m = record { provider_id = p; model_id = m }

abbrev gpt : ModelRef
gpt = model (codes "openai") (codes "gpt")

abbrev kimi : ModelRef
kimi = model (codes "kimi") (codes "k2")

abbrev glm : ModelRef
glm = model (codes "glm") (codes "glm-4")

abbrev config : FallbackConfig
config = record {
  primary = gpt;
  fallbacks = kimi ∷ gpt ∷ glm ∷ [];
  max_attempts = 0;
  skip_on_cooldown = true;
}

abbrev raw_error : Text → RawError
raw_error m = record { status_code = none; status = none; error_code = none; message = m }

-- gpt is in cooldown, and kimi times out; glm answers 7.
abbrev env : Env Text ℕ
env = record {
  find_by_ref = λ r. elim (same r.provider_id (codes "openai")) [
    | true ↦ some cool_down
    | false ↦ some ready
  ];
  build_chat_model = λ r. done r.provider_id;
  run = λ m. elim (same m (codes "kimi")) [
    | true ↦ failed (raw (raw_error (codes "Deadline Exceeded")))
    | false ↦ done 7
  ];
}

-- The same, but kimi rejects the request.
abbrev strict : Env Text ℕ
strict = record env {
  run = λ m. elim (same m (codes "kimi")) [
    | true ↦ failed (
        raw (record {
          status_code = some 400;
          status = none;
          error_code = none;
          message = codes "bad";
        }))
    | false ↦ done 7
  ];
}

candidates_run : candidates config ≡ gpt ∷ kimi ∷ glm ∷ []
unfolding candidates same
candidates_run = refl

run_wins : (run_with_fallback env config).result.winner ≡ some (7, glm)
unfolding run_with_fallback candidates effective_max_attempts fallback_loop classify_error
    failover_error_from_cause should_failover same classify_from_message contains lower_rune
run_wins = refl

run_chat_fails :
    (run_chat_with_fallback strict config).1
    ≡ some (
        codes
          "all models failed (2 attempts): openai/gpt: skipped (provider openai is in cooldown) | kimi/k2: bad (format)")
unfolding run_chat_with_fallback run_with_fallback candidates effective_max_attempts fallback_loop
    classify_error failover_error_from_cause should_failover same classify_from_message contains
    lower_rune classify_from_status all_failed_error is_ok summary decimal join
run_chat_fails = refl

should_failover_iff_example :
    ((should_failover auth ≡ false) ↔ (auth ≡ format))
    × (is_retryable auth ≡ true → should_failover auth ≡ true)
should_failover_iff_example = should_failover_iff auth

candidates_correct_example :
    IsDistinct (candidates config)
    × ((k : Text) → find_key k (candidates config) ≡ find_key k (config.primary ∷ config.fallbacks))
    × Sublist (candidates config) (config.primary ∷ config.fallbacks)
candidates_correct_example = candidates_correct config

effective_max_attempts_bounds_example :
    (0 < effective_max_attempts config)
    × (effective_max_attempts config ≤ 4)
    × (0 < config.max_attempts → effective_max_attempts config ≤ config.max_attempts)
effective_max_attempts_bounds_example = effective_max_attempts_bounds config

run_with_fallback_iff_example :
    ((run_with_fallback env config).result.winner ≡ some (7, glm))
    ↔ Found env true (candidates config) (effective_max_attempts config) 7 glm
run_with_fallback_iff_example = run_with_fallback_iff env config 7 glm

run_with_fallback_stops_example :
    let r = (run_with_fallback strict config).result in
    (r.winner ≡ none) × (map (λ a. a.ref) r.attempts ≡ gpt ∷ kimi ∷ [])
unfolding candidates effective_max_attempts same in_cooldown failover_error_from_cause
    classify_error classify_from_status should_failover
run_with_fallback_stops_example =
    run_with_fallback_stops strict config (gpt ∷ []) (glm ∷ []) kimi refl (omega arith)
      (Fates.cooling refl, tt)
      (Fates.aborts (codes "kimi")
        (raw (record {
          status_code = some 400;
          status = none;
          error_code = none;
          message = codes "bad";
        }))
        refl refl refl refl)
