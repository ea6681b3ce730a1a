-- ===== src/Llm/Compat/Tests.antt =====
-- internal/hivemind/service/llm/domain/service/model_compat.go: runs of the model, and the theorems at concrete inputs.
use echoryn.Prelude.{
  codes, same, contains, lookup, ◌≡◌, ◌↔◌, refl, Bool, true, false, some, List, [], ◌∷◌, ◌++◌,
}
use echoryn.Llm.Fallback.{ref_string, ready}
use echoryn.Llm.Models.{ModelInstance, ModelProvider, class_claude, anthropic_messages}
use echoryn.Llm.Compat.{
  ModelCompatRule, ModelCompatConfig, match_all, no_compat, builtin_compat_rules, evaluate,
  new_compat_manager, ref_of,
}
use echoryn.Llm.Compat.Last.{Decides, evaluate-Decides, system_role, get_field}
use echoryn.Llm.Compat.Cache.{Call, resolves, registers, answers, evaluations, answers-evaluations}

abbrev model : Bool → ModelInstance
model true = record { id = 1; model_id = codes "claude"; provider_id = codes "p"; status = ready }
model false = record { id = 2; model_id = codes "o1"; provider_id = codes "p"; status = ready }

abbrev provider : Bool → ModelProvider
provider b = record {
  id = codes "p";
  base_url = codes "https://api.p.com/v1";
  model_class = class_claude;
  api = anthropic_messages;
}

abbrev no_system : ModelCompatRule
no_system = record {
  name = codes "no-system";
  description = [];
  matcher = record match_all { base_url_contains = codes "p.com" };
  patches = record no_compat { supports_system_role = some false };
}

-- A rule for the class overrides the rule for the name that stands before it.
builtin_run :
    (evaluate builtin_compat_rules (model false) (provider false)).supports_system_role ≡ some true
unfolding evaluate builtin_compat_rules same
builtin_run = refl

-- A rule by the address, after the others, has the last word.
registered_run :
    (evaluate
      (builtin_compat_rules ++ (no_system ∷ []))
      (model true)
      (provider true)).supports_system_role
    ≡ some false
unfolding evaluate builtin_compat_rules same contains
registered_run = refl

evaluate-Decides_example :
    (get_field system_role (evaluate builtin_compat_rules (model false) (provider false))
      ≡ some true)
    ↔ Decides (model false) (provider false) (get_field system_role) true builtin_compat_rules
evaluate-Decides_example =
    evaluate-Decides (model false) (provider false) system_role builtin_compat_rules true

apart : (a b : Bool) → ref_string (ref_of (model a)) ≡ ref_string (ref_of (model b)) → a ≡ b
unfolding ref_string
apart true true e = refl
apart true false e = absurd cc
apart false true e = absurd cc
apart false false e = refl

abbrev calls : List (Call Bool)
calls = resolves true ∷ resolves true ∷ registers no_system ∷ resolves true ∷ resolves false ∷ []

nothing_cached :
    (a : Bool) (c : ModelCompatConfig)
    → lookup (ref_string (ref_of (model a))) (new_compat_manager []).cache ≡ some c
    → c ≡ evaluate (new_compat_manager []).rules (model a) (provider a)
unfolding lookup new_compat_manager
nothing_cached a c e = absurd cc

answers-evaluations_example :
    answers model provider calls (new_compat_manager [])
    ≡ evaluations model provider calls (new_compat_manager []).rules
answers-evaluations_example =
    answers-evaluations model provider apart calls (new_compat_manager []) nothing_cached
