-- ===== src/Llm/Fallback/Candidates.antt =====
-- internal/hivemind/service/llm/domain/entity/model_fallback.go: Candidates and
-- EffectiveMaxAttempts.
use mathlib.Core.List.{Sublist, Sublistᴰ}
use echoryn.Prelude.{
  Text, same, same_iff, same_self, any, length, ◌≤◌, ◌<◌, ◌≡◌, refl, Bool, Option, none, some, List,
  [], ◌∷◌, if◌then◌else◌, Bool-cases, inl, inr, arith,
}
use echoryn.Llm.Fallback.{
  ModelRef, ref_string, FallbackConfig, add_all, candidates, effective_max_attempts,
}

-- The first model of a list with a key.
unfoldable pub find_key : Text → List ModelRef → Option ModelRef
find_key k [] = none
find_key k (r ∷ rs) = if same (ref_string r) k then some r else find_key k rs

-- No two models of the list share a key.
abbrev pub IsDistinct : List ModelRef → Type 0
IsDistinct [] = Unit {0}
IsDistinct (r ∷ rs) = (find_key (ref_string r) rs ≡ none) × IsDistinct rs

abbrev taken : Text → List Text → Bool
taken key seen = any (λ k. same k key) seen

find_key-add_all :
    (k : Text) (seen : List Text) (rs : List ModelRef)
    → find_key k (add_all seen rs) ≡ (if taken k seen then none else find_key k rs)
unfolding find_key add_all
find_key-add_all k seen [] = ground arith
find_key-add_all k seen (r ∷ rs) = elim (Bool-cases (same (ref_string r) k)) [
  | inl e ↦
      rw ((same_iff (ref_string r) k).0 e) (ground (arith, same_self k, find_key-add_all k seen rs))
  | inr e ↦ ground (arith, find_key-add_all k seen rs, find_key-add_all k (ref_string r ∷ seen) rs)
]

add_all-IsDistinct : (seen : List Text) (rs : List ModelRef) → IsDistinct (add_all seen rs)
unfolding add_all
add_all-IsDistinct seen [] = tt
add_all-IsDistinct seen (r ∷ rs) = elim (Bool-cases (taken (ref_string r) seen)) [
  | inl t ↦ rw t (add_all-IsDistinct seen rs)
  | inr t ↦ rw t (
    rw (find_key-add_all (ref_string r) (ref_string r ∷ seen) rs, same_self) refl,
    add_all-IsDistinct (ref_string r ∷ seen) rs,
  )
]

add_all-sublist : (seen : List Text) (rs : List ModelRef) → Sublistᴰ (add_all seen rs) rs
unfolding add_all
add_all-sublist seen [] = Sublistᴰ.slnil
add_all-sublist seen (r ∷ rs) = elim (Bool-cases (taken (ref_string r) seen)) [
  | inl t ↦ rw t (Sublistᴰ.cons (add_all-sublist seen rs))
  | inr t ↦ rw t (Sublistᴰ.cons-cons refl (add_all-sublist (ref_string r ∷ seen) rs))
]

-- The candidates are the configured models in their order, less those whose key came before: a key
-- stands once, for the first model that has it.
pub candidates_correct :
    (c : FallbackConfig)
    → IsDistinct (candidates c)
      × ((k : Text) → find_key k (candidates c) ≡ find_key k (c.primary ∷ c.fallbacks))
      × Sublist (candidates c) (c.primary ∷ c.fallbacks)
unfolding candidates
candidates_correct c = (
  add_all-IsDistinct [] (c.primary ∷ c.fallbacks),
  λ k. find_key-add_all k [] (c.primary ∷ c.fallbacks),
  ∣ add_all-sublist [] (c.primary ∷ c.fallbacks) ∣₁,
)

-- The number of attempts lies between one and the number of configured models, and a positive
-- MaxAttempts bounds it.
pub effective_max_attempts_bounds :
    (c : FallbackConfig)
    → (0 < effective_max_attempts c)
      × (effective_max_attempts c ≤ length (c.primary ∷ c.fallbacks))
      × (0 < c.max_attempts → effective_max_attempts c ≤ c.max_attempts)
unfolding effective_max_attempts
effective_max_attempts_bounds c = ground arith
