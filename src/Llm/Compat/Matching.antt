-- ===== src/Llm/Compat/Matching.antt =====
-- internal/hivemind/service/llm/domain/entity/model_compat.go: which models a matcher matches.
use echoryn.Prelude.{
  Text, same, same_iff, is_empty, contains, contains-append, has_prefix, any, ℕ, Bool, true, ◌||◌,
  ◌≡◌, ◌↔◌, ◌⊎◌, inl, inr, refl, ap, List, [], ◌∷◌, ◌++◌, ◌==◌, Found, Found-cons, Bool-cases,
  arith,
}
use echoryn.Llm.Models.{ModelInstance, ModelProvider}
use echoryn.Llm.Compat.{ModelCompatMatcher, admits, matches}

-- A list that is not empty admits its entries only, an empty one everything.
abbrev pub IsAdmitted : {A : Type 0} → List A → A → Type 0
IsAdmitted xs v = (xs ≡ []) ⊎ Found v xs

-- The first text stands within the second.
abbrev pub IsPart : Text → Text → Type 0
IsPart p t = (s after : Text) × (t ≡ s ++ (p ++ after))

-- The matcher matches a model with its provider: each of its conditions that is set holds.
pub record IsMatch (m : ModelCompatMatcher) (i : ModelInstance) (p : ModelProvider) : Type 0 where
  pub provider : IsAdmitted m.provider_ids i.provider_id
  pub model : IsAdmitted m.model_ids i.model_id
  pub class : IsAdmitted m.model_classes p.model_class
  pub api : IsAdmitted m.api_types p.api
  pub base_url : IsPart m.base_url_contains p.base_url

module _ {A : Type 0} (equal : A → A → Bool)
    (equal_iff : (x y : A) → (equal x y ≡ true) ↔ (x ≡ y)) where
  any_iff : (xs : List A) (v : A) → (any (λ s. equal s v) xs ≡ true) ↔ Found v xs
  any_iff [] v = (λ e. absurd cc, λ (j, e). absurd cc)
  any_iff (x ∷ xs) v =
      let (to, from) = any_iff xs v in
      let (there, back) = Found-cons v x xs in
      let (sound, complete) = equal_iff x v in
      (
        λ e. elim (Bool-cases (equal x v)) [
          | inl here ↦ back (inl (sound here))
          | inr h ↦ back (inr (to (ground (arith, e, h))))
        ],
        λ f. elim (there f) [
          | inl here ↦ rw (complete here) refl
          | inr later ↦ ground (arith, from later)
        ],
      )

  admits_iff : (xs : List A) (v : A) → (admits equal xs v ≡ true) ↔ IsAdmitted xs v
  admits_iff [] v = (λ e. inl refl, λ h. refl)
  admits_iff (x ∷ xs) v =
      let (to, from) = any_iff (x ∷ xs) v in
      (λ e. inr (to e), λ h. elim h [ inl none_at_all ↦ absurd cc | inr f ↦ from f ])

has_prefix_sound : (p t : Text) → has_prefix p t ≡ true → (after : Text) × (t ≡ p ++ after)
unfolding has_prefix
has_prefix_sound [] t e = (t, refl)
has_prefix_sound (c ∷ p) [] e = absurd cc
has_prefix_sound (c ∷ p) (d ∷ t) e =
    let first : c ≡ d = ground (arith, e) in
    let (after, rest) = has_prefix_sound p t (ground (arith, e)) in (after, cc (first, rest))

contains_sound : (p t : Text) → contains p t ≡ true → IsPart p t
unfolding contains
contains_sound p [] e = let (after, whole) = has_prefix_sound p [] e in ([], after, whole)
contains_sound p (c ∷ t) e = elim (Bool-cases (has_prefix p (c ∷ t))) [
  | inl here ↦ let (after, whole) = has_prefix_sound p (c ∷ t) here in ([], after, whole)
  | inr h ↦
      let (s, after, later) = contains_sound p t (ground (arith, e, h)) in
      (c ∷ s, after, ap (◌∷◌ c) later)
]

IsPart-iff : (p t : Text) → ((is_empty p || contains p t) ≡ true) ↔ IsPart p t
IsPart-iff [] t = (λ e. ([], t, refl), λ h. refl)
IsPart-iff (c ∷ p) t =
    (contains_sound (c ∷ p) t, λ (s, after, e). rw e (contains-append s (c ∷ p) after))

==_iff : (m n : ℕ) → ((m == n) ≡ true) ↔ (m ≡ n)
==_iff m n = (λ e. ground (arith, e), λ e. ground (arith, e))

-- Matches answers true exactly where each condition that is set holds.
pub matches_iff :
    (m : ModelCompatMatcher) (i : ModelInstance) (p : ModelProvider)
    → (matches m i p ≡ true) ↔ IsMatch m i p
unfolding matches
matches_iff m i p =
    let (a, a') = admits_iff same same_iff m.provider_ids i.provider_id in
    let (b, b') = admits_iff same same_iff m.model_ids i.model_id in
    let (c, c') = admits_iff (λ x y. x == y) ==_iff m.model_classes p.model_class in
    let (d, d') = admits_iff same same_iff m.api_types p.api in
    let (u, u') = IsPart-iff m.base_url_contains p.base_url in
    (
      λ h. record {
        provider = a (ground (arith, h));
        model = b (ground (arith, h));
        class = c (ground (arith, h));
        api = d (ground (arith, h));
        base_url = u (ground (arith, h));
      },
      λ h. rw (a' h.provider, b' h.model, c' h.class, d' h.api, u' h.base_url) refl,
    )
