-- ===== src/Llm/Fallback/Fates.antt =====
-- internal/hivemind/service/llm/domain/service/model_fallback.go: what becomes of one candidate in
-- the loop of RunWithFallback.
use echoryn.Prelude.{
  keep, ℕ, ◌+◌, ◌≡◌, ◌≢◌, refl, Bool, true, false, not, ◌⊎◌, none, some, List, [], ◌∷◌, map,
  Bool-cases, inl, inr,
}
use echoryn.Llm.Failover.Rules.{should_failover_iff}
use echoryn.Llm.Failover.{FailoverReason, format, Error, should_failover, failover_error_from_cause}
use echoryn.Llm.Fallback.{
  ModelRef, FallbackAttempt, Env, Outcome, done, failed, FallbackRun, stop, record_attempt,
  in_cooldown, skip_attempt, build_attempt, run_attempt, ran, built, try_candidate, ErrorCall,
}

pub Outcome-cases :
    {A : Type 0} (o : Outcome A) → ((a : A) × (o ≡ done a)) ⊎ ((e : Error) × (o ≡ failed e))
Outcome-cases (done a) = inl (a, refl)
Outcome-cases (failed e) = inr (e, refl)

-- The reason under which a failed run of a candidate is recorded.
abbrev pub reason_of : ModelRef → Error → FailoverReason
reason_of ref e = (failover_error_from_cause e ref.provider_id ref.model_id).reason

moves_on : (r : FailoverReason) → r ≢ format → should_failover r ≡ true
moves_on r h = elim (Bool-cases (should_failover r)) [
  | inl e ↦ e
  | inr e ↦ absurd (h ((should_failover_iff r).0.0 e))
]

moved :
    (ref : ModelRef) (e : Error)
    → should_failover (reason_of ref e) ≡ true
    → reason_of ref e ≢ format
moved ref e k = λ f. let stops = (should_failover_iff (reason_of ref e)).0.1 f in cc

ends_search : (r : FailoverReason) → r ≡ format → should_failover r ≡ false
ends_search r e = (should_failover_iff r).0.1 e

module _ {M V : Type 0} (env : Env M V) (skip : Bool) where
  -- The candidate is skipped, cannot be built, or fails for a reason other than format.
  pub data Passed (ref : ModelRef) : Type 0 where
    cooling : in_cooldown env skip ref ≡ true → Passed ref
    unbuilt :
        (e : Error)
        → in_cooldown env skip ref ≡ false
        → env.build_chat_model ref ≡ failed e
        → Passed ref
    broken :
        (m : M) (e : Error)
        → in_cooldown env skip ref ≡ false
        → env.build_chat_model ref ≡ done m
        → env.run m ≡ failed e
        → reason_of ref e ≢ format
        → Passed ref

  -- The candidate is asked and answers with `v`.
  pub data Answers (ref : ModelRef) (v : V) : Type 0 where
    answers :
        (m : M)
        → in_cooldown env skip ref ≡ false
        → env.build_chat_model ref ≡ done m
        → env.run m ≡ done v
        → Answers ref v

  -- The candidate is asked and fails for the reason format.
  pub data Aborts (ref : ModelRef) : Type 0 where
    aborts :
        (m : M) (e : Error)
        → in_cooldown env skip ref ≡ false
        → env.build_chat_model ref ≡ done m
        → env.run m ≡ failed e
        → reason_of ref e ≡ format
        → Aborts ref

  pub data Fate (ref : ModelRef) : Type 0 where
    passed : Passed ref → Fate ref
    answered : (v : V) → Answers ref v → Fate ref
    aborted : Aborts ref → Fate ref

  pub Fate-of : (ref : ModelRef) → Fate ref
  Fate-of ref = elim (Bool-cases (in_cooldown env skip ref)) [
    | inl c ↦ passed (cooling c)
    | inr c ↦ elim (Outcome-cases (env.build_chat_model ref)) [
      | inr (e, b) ↦ passed (unbuilt e c b)
      | inl (m, b) ↦ elim (Outcome-cases (env.run m)) [
        | inl (v, r) ↦ answered v (answers m c b r)
        | inr (e, r) ↦ elim (Bool-cases (should_failover (reason_of ref e))) [
          | inl k ↦ passed (broken m e c b r (moved ref e k))
          | inr k ↦ aborted (aborts m e c b r ((should_failover_iff (reason_of ref e)).0.0 k))
        ]
      ]
    ]
  ]

  module _ (max total i : ℕ) (ref : ModelRef) (rest : FallbackRun V) where
    abbrev pub tried : FallbackRun V
    tried = try_candidate env skip max total i ref rest

    pub try-Passed :
        Passed ref
        → (a : FallbackAttempt) × (calls : List ErrorCall) × (a.ref ≡ ref)
          × (map (λ c. c.0) calls ≡ keep (λ b. not b.skipped) (a ∷ []))
          × (tried ≡ record_attempt a calls rest)
    unfolding try_candidate
    try-Passed (cooling c) = (skip_attempt ref, [], refl, refl, rw c)
    try-Passed (unbuilt e c b) =
        let a = build_attempt ref e in
        (a, (a, i + 1, total) ∷ [], refl, refl, rw c (rw (b, built) refl))
    try-Passed (broken m e c b r h) =
        let k = moves_on (reason_of ref e) h in
        let a = run_attempt ref (failover_error_from_cause e ref.provider_id ref.model_id) in
        (a, (a, i + 1, total) ∷ [], refl, refl, rw c (rw (b, built) (rw (r, ran) (rw k refl))))

    pub try-Answers : (v : V) → Answers ref v → tried ≡ stop (some (v, ref))
    unfolding try_candidate
    try-Answers v (answers m c b r) = rw c (rw (b, built) (rw (r, ran) refl))

    pub try-Aborts :
        Aborts ref
        → (a : FallbackAttempt) × (calls : List ErrorCall) × (a.ref ≡ ref)
          × (map (λ c. c.0) calls ≡ keep (λ b. not b.skipped) (a ∷ []))
          × (tried ≡ record_attempt a calls (stop none))
    unfolding try_candidate
    try-Aborts (aborts m e c b r f) =
        let k = ends_search (reason_of ref e) f in
        let a = run_attempt ref (failover_error_from_cause e ref.provider_id ref.model_id) in
        (a, (a, i + 1, total) ∷ [], refl, refl, rw c (rw (b, built) (rw (r, ran) (rw k refl))))
