-- ===== src/Llm/Fallback/Attempts.antt =====
-- internal/hivemind/service/llm/domain/service/model_fallback.go: what RunWithFallback,
-- RunChatWithFallback and GetChatModelWithFallback return.
use echoryn.Prelude.{
  All, length, ◌-◌, ◌<◌, ◌≡◌, ◌++◌, ap, Bool, true, false, ◌↔◌, none, some, List, [], ◌∷◌, map,
  Bool-cases, Option-cases, inl, inr, arith,
}
use echoryn.Llm.Failover.{Error}
use echoryn.Llm.Fallback.{
  ModelRef, FallbackConfig, Env, done, failed, in_cooldown, run_with_fallback, candidates,
  effective_max_attempts, run_chat_with_fallback, is_ok, all_failed_error, first_built,
  get_chat_model_with_fallback,
}
use echoryn.Llm.Fallback.Fates.{Passed, Aborts, Outcome-cases}
use echoryn.Llm.Fallback.Loop.{Found, Found-room, loop_sound, loop_complete, loop_stops}

-- RunWithFallback succeeds with a value and a model exactly where that model is the first of the
-- candidates to answer: those before it are in cooldown, cannot be built, or fail for a reason
-- other than format, and they are fewer than the number of attempts. (The two sides name the same candidates.)
pub run_with_fallback_iff :
    {M V : Type 0} (env : Env M V) (c : FallbackConfig) (v : V) (ref : ModelRef)
    → ((run_with_fallback env c).result.winner ≡ some (v, ref))
      ↔ Found env c.skip_on_cooldown (candidates c) (effective_max_attempts c) v ref
unfolding run_with_fallback
run_with_fallback_iff env c v ref =
    let skip = c.skip_on_cooldown in
    let max = effective_max_attempts c in
    let refs = candidates c in
    (
      λ h.
          Found-room env skip refs (max - 0) max v ref (omega arith)
            (loop_sound env skip max (length refs) 0 refs v ref h),
      λ (pre, post, e, h, ps, a).
          rw e (loop_complete env skip max _ 0 pre post ref v (omega arith) ps a).0,
    )

-- A candidate that is asked and fails for a format reason ends the search: nothing is won, and the
-- attempts are the candidates up to it, however many are left.
pub run_with_fallback_stops :
    {M V : Type 0} (env : Env M V) (c : FallbackConfig) (pre post : List ModelRef) (ref : ModelRef)
    → candidates c ≡ pre ++ (ref ∷ post)
    → length pre < effective_max_attempts c
    → All (Passed env c.skip_on_cooldown) pre
    → Aborts env c.skip_on_cooldown ref
    → let r = (run_with_fallback env c).result in
      (r.winner ≡ none) × (map (λ a. a.ref) r.attempts ≡ pre ++ (ref ∷ []))
unfolding run_with_fallback
run_with_fallback_stops env c pre post ref e h ps a = rw e (
    loop_stops env c.skip_on_cooldown (effective_max_attempts c) _ 0 pre post ref (omega arith) ps
      a)

-- RunChatWithFallback returns an error exactly where no model won, and the same result either way.
pub run_chat_with_fallback_error :
    {M V : Type 0} (env : Env M V) (c : FallbackConfig)
    → let (result, error) = run_chat_with_fallback env c in
      (result ≡ (run_with_fallback env c).result)
      × ((error ≡ none) ↔ ((w : V × ModelRef) × (result.winner ≡ some w)))
      × (result.winner ≡ none → error ≡ all_failed_error result)
unfolding run_chat_with_fallback is_ok all_failed_error
run_chat_with_fallback_error env c = elim (Option-cases (run_with_fallback env c).result.winner) [
  | inl e ↦ (ground arith, (λ h. ground arith, λ (w, h). cc), λ h. ground arith)
  | inr (w, e) ↦ (ground arith, (λ h. (w, ground arith), λ h. ground arith), λ h. ground arith)
]

-- A candidate that GetChatModelWithFallback passes over: in cooldown, or not to be built.
pub data Unusable {M V : Type 0} (env : Env M V) (skip : Bool) (ref : ModelRef) : Type 0 where
  cooling : in_cooldown env skip ref ≡ true → Unusable env skip ref
  unbuilt : (e : Error) → env.build_chat_model ref ≡ failed e → Unusable env skip ref

-- `m` is built for `ref`, the first of the models that is neither in cooldown nor fails to build.
abbrev pub FirstBuilt : {M V : Type 0} → Env M V → Bool → List ModelRef → M → ModelRef → Type 0
FirstBuilt env skip refs m ref =
    (pre : List ModelRef) × (post : List ModelRef) × (refs ≡ pre ++ (ref ∷ post))
    × All (Unusable env skip) pre
    × (in_cooldown env skip ref ≡ false)
    × (env.build_chat_model ref ≡ done m)

FirstBuilt-cons :
    {M V : Type 0} (env : Env M V) (skip : Bool) (r : ModelRef) (refs : List ModelRef) (m : M)
    (ref : ModelRef)
    → Unusable env skip r
    → FirstBuilt env skip refs m ref
    → FirstBuilt env skip (r ∷ refs) m ref
FirstBuilt-cons env skip r refs m ref u (pre, post, e, us, c, b) =
    (r ∷ pre, post, ap (◌∷◌ r) e, (u, us), c, b)

first_built_sound :
    {M V : Type 0} (env : Env M V) (skip : Bool) (refs : List ModelRef) (m : M) (ref : ModelRef)
    → first_built env skip refs ≡ some (m, ref)
    → FirstBuilt env skip refs m ref
unfolding first_built
first_built_sound env skip [] m ref h = cc
first_built_sound env skip (r ∷ refs) m ref h = elim (Bool-cases (in_cooldown env skip r)) [
  | inl c ↦
      FirstBuilt-cons env skip r refs m ref (cooling c)
        (first_built_sound env skip refs m ref (rw c at h))
  | inr c ↦ elim (Outcome-cases (env.build_chat_model r)) [
    | inr (e, b) ↦
        FirstBuilt-cons env skip r refs m ref (unbuilt e b)
          (first_built_sound env skip refs m ref (ground arith))
    | inl (m', b) ↦ ([], refs, ground arith, tt, ground arith, ground arith)
  ]
]

first_built_complete :
    {M V : Type 0} (env : Env M V) (skip : Bool) (pre post : List ModelRef) (m : M) (ref : ModelRef)
    → All (Unusable env skip) pre
    → in_cooldown env skip ref ≡ false
    → env.build_chat_model ref ≡ done m
    → first_built env skip (pre ++ (ref ∷ post)) ≡ some (m, ref)
unfolding first_built
first_built_complete env skip [] post m ref us c b = ground arith
first_built_complete env skip (r ∷ pre) post m ref (cooling c', us) c b =
    rw c' (first_built_complete env skip pre post m ref us c b)
first_built_complete env skip (r ∷ pre) post m ref (unbuilt e b', us) c b =
    ground (arith, first_built_complete env skip pre post m ref us c b)

-- GetChatModelWithFallback returns the first candidate that can be built outside a cooldown, among
-- all candidates: MaxAttempts does not bound it.
pub get_chat_model_with_fallback_iff :
    {M V : Type 0} (env : Env M V) (c : FallbackConfig) (m : M) (ref : ModelRef)
    → (get_chat_model_with_fallback env c ≡ some (m, ref))
      ↔ FirstBuilt env c.skip_on_cooldown (candidates c) m ref
unfolding get_chat_model_with_fallback
get_chat_model_with_fallback_iff env c m ref = (
  first_built_sound env c.skip_on_cooldown (candidates c) m ref,
  λ (pre, post, e, us, k, b).
      rw e (first_built_complete env c.skip_on_cooldown pre post m ref us k b),
)
