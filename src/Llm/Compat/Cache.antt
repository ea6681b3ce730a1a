-- ===== src/Llm/Compat/Cache.antt =====
-- internal/hivemind/service/llm/domain/service/model_compat.go: the manager with its cache, against one that evaluates the
-- rules at each call.
use echoryn.Prelude.{
  Text, lookup, insert, lookup-insert, same, same_iff, ◌≡◌, ◌++◌, refl, some, Option-cases, inl,
  inr, List, [], ◌∷◌, Bool-cases, sym, ◌∙◌,
}
use echoryn.Llm.Fallback.{ref_string}
use echoryn.Llm.Models.{ModelInstance, ModelProvider}
use echoryn.Llm.Compat.{
  ModelCompatConfig, ModelCompatRule, CompatManager, evaluate, resolve_compat, register_rule,
  invalidate_cache, ref_of,
}

-- The calls of the manager, for models that `Known` names.
pub data Call (Known : Type 0) : Type 0 where
  resolves : Known → Call Known
  registers : ModelCompatRule → Call Known
  invalidates : Call Known

-- The instance and the provider of each model.
module _ {Known : Type 0} (instance_of : Known → ModelInstance)
    (provider_of : Known → ModelProvider) where
  abbrev pub key_of : Known → Text
  key_of a = ref_string (ref_of (instance_of a))

  -- What a sequence of calls returns: one configuration for each of the calls of ResolveCompat.
  unfoldable pub answers : List (Call Known) → CompatManager → List ModelCompatConfig
  unfolding resolve_compat register_rule invalidate_cache
  answers [] cm = []
  answers (resolves a ∷ calls) cm =
      let (config, cm') = resolve_compat (instance_of a) (provider_of a) cm in
      config ∷ answers calls cm'
  answers (registers rule ∷ calls) cm = answers calls (register_rule rule cm)
  answers (invalidates ∷ calls) cm = answers calls (invalidate_cache cm)

  -- The same without a cache.
  unfoldable pub evaluations : List (Call Known) → List ModelCompatRule → List ModelCompatConfig
  evaluations [] rules = []
  evaluations (resolves a ∷ calls) rules =
      evaluate rules (instance_of a) (provider_of a) ∷ evaluations calls rules
  evaluations (registers rule ∷ calls) rules = evaluations calls (rules ++ (rule ∷ []))
  evaluations (invalidates ∷ calls) rules = evaluations calls rules

  -- What is cached for a model is what the rules give for it.
  abbrev pub IsFresh : CompatManager → Type 0
  IsFresh cm =
      (a : Known) (c : ModelCompatConfig)
      → lookup (key_of a) cm.cache ≡ some c
      → c ≡ evaluate cm.rules (instance_of a) (provider_of a)

  -- The references of different models have different texts.
  module _ (apart : (a b : Known) → key_of a ≡ key_of b → a ≡ b) where
    stored-IsFresh :
        (a : Known) (cm : CompatManager)
        → IsFresh cm
        → let resolved = evaluate cm.rules (instance_of a) (provider_of a) in
          IsFresh (record cm { cache = insert (key_of a) resolved cm.cache })
    stored-IsFresh a cm fresh b c e =
        let resolved = evaluate cm.rules (instance_of a) (provider_of a) in
        let found = sym (lookup-insert (key_of a) (key_of b) resolved cm.cache) ∙ e in
        elim (Bool-cases (same (key_of a) (key_of b))) [
          | inl t ↦
              let same_model = apart a b ((same_iff (key_of a) (key_of b)).0 t) in
              let stored : some resolved ≡ some c = rw t at found in rw (sym same_model) cc
          | inr f ↦ fresh b c (rw f at found)
        ]

    resolve_compat_lem :
        (a : Known) (cm : CompatManager)
        → IsFresh cm
        → let (config, cm') = resolve_compat (instance_of a) (provider_of a) cm in
          (config ≡ evaluate cm.rules (instance_of a) (provider_of a))
          × (cm'.rules ≡ cm.rules)
          × IsFresh cm'
    unfolding resolve_compat
    resolve_compat_lem a cm fresh = elim (Option-cases (lookup (key_of a) cm.cache)) [
      | inl e ↦ rw (resolve_compat, e) (refl, refl, stored-IsFresh a cm fresh)
      | inr (c, e) ↦ rw (resolve_compat, e) (fresh a c e, refl, fresh)
    ]

    cleared-IsFresh :
        (rules : List ModelCompatRule) → IsFresh (record { rules = rules; cache = [] })
    unfolding lookup
    cleared-IsFresh rules a c e = absurd cc

    -- As long as the stored instances and providers are the same, and no two of their references have the same text,
    -- the manager with its cache returns what evaluating the rules at each call returns, in any sequence of calls.
    pub answers-evaluations :
        (calls : List (Call Known)) (cm : CompatManager)
        → IsFresh cm
        → answers calls cm ≡ evaluations calls cm.rules
    unfolding answers evaluations register_rule invalidate_cache
    answers-evaluations [] cm fresh = refl
    answers-evaluations (resolves a ∷ calls) cm fresh =
        let (same_config, same_rules, fresh') = resolve_compat_lem a cm fresh in
        let (config, cm') = resolve_compat (instance_of a) (provider_of a) cm in
        let rest = answers-evaluations calls cm' fresh' in cc (same_config, rw same_rules at rest)
    answers-evaluations (registers rule ∷ calls) cm fresh =
        answers-evaluations calls (register_rule rule cm)
          (cleared-IsFresh (cm.rules ++ (rule ∷ [])))
    answers-evaluations (invalidates ∷ calls) cm fresh =
        answers-evaluations calls (invalidate_cache cm) (cleared-IsFresh cm.rules)
