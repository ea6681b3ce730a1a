-- ===== src/Llm/Compat/Last.antt =====
-- internal/hivemind/service/llm/domain/service/model_compat.go: which rule decides a field of what evaluate returns.
use echoryn.Prelude.{
  ◌≡◌, ◌↔◌, ◌++◌, refl, inl, inr, Bool, true, Bool-cases, Option, none, some, Option-cases, List,
  [], ◌∷◌, All, if◌then◌else◌, is_empty, Text, arith, ap, ◌∙◌, All-map,
}
use echoryn.Llm.Compat.Matching.{IsMatch, matches_iff}
use echoryn.Llm.Models.{ModelInstance, ModelProvider}
use echoryn.Llm.Compat.{
  ModelCompatConfig, ModelCompatRule, matches, merge_compat, no_compat, override, evaluate_loop,
  evaluate, FloatRange,
}

-- The field of a configuration that merge_compat overrides where the patch sets it.
abbrev IsOverridden : {A : Type 0} → (ModelCompatConfig → Option A) → Type 0
IsOverridden field =
    (field no_compat ≡ none)
    × ((dst src : ModelCompatConfig)
        → field (merge_compat dst src) ≡ override (field dst) (field src))

-- The fields of a configuration.
pub data Field : Type 0 where
  developer_role system_role function_call streaming vision max_tokens_name max_tokens_required
        stop_sequence temperature :
      Field

abbrev pub Value : Field → Type 0
Value max_tokens_name = Text
Value temperature = FloatRange
Value _ = Bool

-- What a configuration has in a field. Of the two fields that are no pointers the zero stands for none.
abbrev pub get_field : (f : Field) → ModelCompatConfig → Option (Value f)
get_field developer_role c = c.supports_developer_role
get_field system_role c = c.supports_system_role
get_field function_call c = c.supports_function_call
get_field streaming c = c.supports_streaming
get_field vision c = c.supports_vision
get_field max_tokens_name c =
    if is_empty c.max_tokens_field_name then none else some c.max_tokens_field_name
get_field max_tokens_required c = if c.requires_max_tokens then some true else none
get_field stop_sequence c = c.stop_sequence_supported
get_field temperature c = c.temperature_range

get_field-IsOverridden : (f : Field) → IsOverridden (get_field f)
unfolding merge_compat
get_field-IsOverridden developer_role = (refl, λ dst src. refl)
get_field-IsOverridden system_role = (refl, λ dst src. refl)
get_field-IsOverridden function_call = (refl, λ dst src. refl)
get_field-IsOverridden streaming = (refl, λ dst src. refl)
get_field-IsOverridden vision = (refl, λ dst src. refl)
get_field-IsOverridden max_tokens_name = (refl, λ dst src. ground arith)
get_field-IsOverridden max_tokens_required = (refl, λ dst src. ground arith)
get_field-IsOverridden stop_sequence = (refl, λ dst src. refl)
get_field-IsOverridden temperature = (refl, λ dst src. refl)

override_assoc :
    {A : Type 0} (a b c : Option A) → override (override a b) c ≡ override a (override b c)
override_assoc a b none = refl
override_assoc a b (some v) = refl

override-none : {A : Type 0} (a : Option A) → override none a ≡ a
override-none none = refl
override-none (some v) = refl

module _ (i : ModelInstance) (p : ModelProvider) where
  -- What a rule sets a field to, if it matches.
  abbrev sets : {A : Type 0} → (ModelCompatConfig → Option A) → ModelCompatRule → Option A
  sets field r = if matches r.matcher i p then field r.patches else none

  -- What the last of the rules that match and set the field sets it to.
  last_set : {A : Type 0} → (ModelCompatConfig → Option A) → List ModelCompatRule → Option A
  last_set field [] = none
  last_set field (r ∷ rs) = override (sets field r) (last_set field rs)

  loop_lem :
      {A : Type 0} (field : ModelCompatConfig → Option A)
      → IsOverridden field
      → (result : ModelCompatConfig) (rules : List ModelCompatRule)
      → field (evaluate_loop i p result rules) ≡ override (field result) (last_set field rules)
  unfolding evaluate_loop last_set
  loop_lem field o result [] = refl
  loop_lem field o result (r ∷ rules) = elim (Bool-cases (matches r.matcher i p)) [
    | inl yes_it ↦
        rw (yes_it, loop_lem field o (merge_compat result r.patches) rules, o.1 result r.patches)
          (override_assoc (field result) (field r.patches) (last_set field rules))
    | inr not_it ↦
        rw (not_it, loop_lem field o result rules, override-none (last_set field rules)) refl
  ]

  abbrev Last : {A : Type 0} → (ModelCompatConfig → Option A) → A → List ModelCompatRule → Type 0
  Last field v rules =
      (before : List ModelCompatRule) × (r : ModelCompatRule) × (after : List ModelCompatRule)
      × (rules ≡ before ++ r ∷ after)
      × (sets field r ≡ some v)
      × All (λ s. sets field s ≡ none) after

  last_set-none :
      {A : Type 0} (field : ModelCompatConfig → Option A) (rules : List ModelCompatRule)
      → (last_set field rules ≡ none) ↔ All (λ s. sets field s ≡ none) rules
  unfolding last_set
  last_set-none field [] = (λ e. tt, λ all_none. refl)
  last_set-none field (r ∷ rules) =
      let (to, from) = last_set-none field rules in
      elim (Option-cases (last_set field rules)) [
        | inl e ↦ rw e (λ g. (g, to e), λ h. h.0)
        | inr (v, e) ↦ rw e (λ g. absurd cc, λ h. absurd (let e' = from h.1 in cc))
      ]

  last_set-Last :
      {A : Type 0} (field : ModelCompatConfig → Option A) (v : A) (rules : List ModelCompatRule)
      → last_set field rules ≡ some v
      → Last field v rules
  unfolding last_set
  last_set-Last field v [] e = absurd cc
  last_set-Last field v (r ∷ rules) e = elim (Option-cases (last_set field rules)) [
    | inl none_later ↦
        ([], r, rules, refl, rw none_later at e, (last_set-none field rules).0 none_later)
    | inr (w, later) ↦
        let (before, s, after, place, found, silent) =
          last_set-Last field v rules (later ∙ rw later at e) in
        (r ∷ before, s, after, ap (◌∷◌ r) place, found, silent)
  ]

  Last-last_set :
      {A : Type 0} (field : ModelCompatConfig → Option A) (v : A) (before : List ModelCompatRule)
      (r : ModelCompatRule) (after : List ModelCompatRule)
      → sets field r ≡ some v
      → All (λ s. sets field s ≡ none) after
      → last_set field (before ++ r ∷ after) ≡ some v
  unfolding last_set
  Last-last_set field v [] r after e h = rw ((last_set-none field after).1 h) e
  Last-last_set field v (b ∷ before) r after e h =
      rw (Last-last_set field v before r after e h) refl

  -- A rule that matches sets the field to `v`, and no later one that matches sets it.
  abbrev pub Decides :
      {A : Type 0} → (ModelCompatConfig → Option A) → A → List ModelCompatRule → Type 0
  Decides field v rules =
      (before : List ModelCompatRule) × (r : ModelCompatRule) × (after : List ModelCompatRule)
      × (rules ≡ before ++ r ∷ after)
      × IsMatch r.matcher i p
      × (field r.patches ≡ some v)
      × All (λ s. IsMatch s.matcher i p → field s.patches ≡ none) after

  sets-some :
      {A : Type 0} (field : ModelCompatConfig → Option A) (r : ModelCompatRule) (v : A)
      → (sets field r ≡ some v) ↔ (IsMatch r.matcher i p × (field r.patches ≡ some v))
  sets-some field r v =
      let (to, from) = matches_iff r.matcher i p in
      (
        λ e. elim (Bool-cases (matches r.matcher i p)) [
          | inl yes_it ↦ (to yes_it, rw yes_it at e)
          | inr not_it ↦ absurd (let gone : none ≡ some v = rw not_it at e in cc)
        ],
        λ (h, e). rw (from h) e,
      )

  sets-none :
      {A : Type 0} (field : ModelCompatConfig → Option A) (r : ModelCompatRule)
      → (sets field r ≡ none) ↔ (IsMatch r.matcher i p → field r.patches ≡ none)
  sets-none field r =
      let (to, from) = matches_iff r.matcher i p in
      (
        λ e h. rw (from h) at e,
        λ h. elim (Bool-cases (matches r.matcher i p)) [
          | inl yes_it ↦ rw yes_it (h (to yes_it))
          | inr not_it ↦ rw not_it refl
        ],
      )

  Last-Decides :
      {A : Type 0} (field : ModelCompatConfig → Option A) (v : A) (rules : List ModelCompatRule)
      → Last field v rules ↔ Decides field v rules
  Last-Decides field v rules = (
    λ (before, r, after, place, found, silent).
        let (fits, value) = (sets-some field r v).0 found in
        (before, r, after, place, fits, value, All-map (λ s. (sets-none field s).0) after silent),
    λ (before, r, after, place, fits, value, silent). (
      before,
      r,
      after,
      place,
      (sets-some field r v).1 (fits, value),
      All-map (λ s. (sets-none field s).1) after silent,
    ),
  )

  -- Each of the nine fields has the value `v` in the configuration that evaluate returns, exactly where a rule that
  -- matches the model sets it to `v`, and no later rule that matches sets it. A rule matches where the provider, the
  -- model, the class and the API are each in the list of its matcher or that list is empty, and its part of the base
  -- URL stands in the base URL.
  pub evaluate-Decides :
      (f : Field) (rules : List ModelCompatRule) (v : Value f)
      → (get_field f (evaluate rules i p) ≡ some v) ↔ Decides (get_field f) v rules
  unfolding evaluate
  evaluate-Decides f rules v =
      let field : ModelCompatConfig → Option (Value f) = get_field f in
      let o = get_field-IsOverridden f in
      let e : field (evaluate rules i p) ≡ last_set field rules =
        rw (loop_lem field o no_compat rules, o.0) (override-none (last_set field rules)) in
      (
        λ found. (Last-Decides field v rules).0 (last_set-Last field v rules (rw e at found)),
        λ decided.
            let (before, r, after, place, found, silent) = (Last-Decides field v rules).1 decided in
            rw (e, place) (Last-last_set field v before r after found silent),
      )
