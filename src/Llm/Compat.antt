-- ===== src/Llm/Compat.antt =====
-- internal/hivemind/service/llm/domain/entity/model_compat.go and internal/hivemind/service/llm/domain/service/model_compat.go: rules
-- that say how a model deviates from its API, and the manager that evaluates and caches them. The rules of the plugins
-- are an argument, in the order in which the registry visits the plugins. A bound of a range of temperatures is
-- the number of its tenths.
pub mod Last
mod Matching
pub mod Cache
pub mod Tests
use mathlib.Core.List.{flatten}
use echoryn.Prelude.{
  Text, codes, Assoc, lookup, insert, same, is_empty, contains, any, ℕ, Bool, true, false, ◌&&◌,
  ◌||◌, Option, none, some, List, [], ◌∷◌, ◌++◌, if◌then◌else◌, ◌==◌,
}
use echoryn.Llm.Fallback.{ModelRef, ref_string}
use echoryn.Llm.Models.{
  ModelClass, ModelInstance, ModelProvider, anthropic_messages, class_claude, class_gemini,
  class_ollama,
}

pub record FloatRange : Type 0 where
  pub min_temperature : ℕ
  pub max_temperature : ℕ

pub record ModelCompatConfig : Type 0 where
  pub supports_developer_role : Option Bool
  pub supports_system_role : Option Bool
  pub supports_function_call : Option Bool
  pub supports_streaming : Option Bool
  pub supports_vision : Option Bool
  pub max_tokens_field_name : Text
  pub requires_max_tokens : Bool
  pub stop_sequence_supported : Option Bool
  pub temperature_range : Option FloatRange

abbrev pub get_bool_or_default : Option Bool → Bool → Bool
get_bool_or_default none default_val = default_val
get_bool_or_default (some b) default_val = b

pub record ModelCompatMatcher : Type 0 where
  pub provider_ids : List Text
  pub model_ids : List Text
  pub model_classes : List ModelClass
  pub api_types : List Text
  pub base_url_contains : Text

pub record ModelCompatRule : Type 0 where
  pub name : Text
  pub description : Text
  pub matcher : ModelCompatMatcher
  pub patches : ModelCompatConfig

-- An empty list admits everything.
abbrev pub admits : {A : Type 0} → (A → A → Bool) → List A → A → Bool
admits equal [] val = true
admits equal (x ∷ xs) val = any (λ s. equal s val) (x ∷ xs)

-- The loop over the positions of BaseURL is the search for a part of a text.
unfoldable pub matches : ModelCompatMatcher → ModelInstance → ModelProvider → Bool
matches m instance_of provider =
    admits same m.provider_ids instance_of.provider_id
    && (admits same m.model_ids instance_of.model_id
        && (admits (λ a b. a == b) m.model_classes provider.model_class
            && (admits same m.api_types provider.api
                && (is_empty m.base_url_contains
                    || contains m.base_url_contains provider.base_url))))

abbrev pub override : {A : Type 0} → Option A → Option A → Option A
override dst none = dst
override dst (some v) = some v

unfoldable pub merge_compat : ModelCompatConfig → ModelCompatConfig → ModelCompatConfig
merge_compat dst src = record {
  supports_developer_role = override dst.supports_developer_role src.supports_developer_role;
  supports_system_role = override dst.supports_system_role src.supports_system_role;
  supports_function_call = override dst.supports_function_call src.supports_function_call;
  supports_streaming = override dst.supports_streaming src.supports_streaming;
  supports_vision = override dst.supports_vision src.supports_vision;
  max_tokens_field_name =
      if is_empty src.max_tokens_field_name
      then dst.max_tokens_field_name
      else src.max_tokens_field_name;
  requires_max_tokens = if src.requires_max_tokens then true else dst.requires_max_tokens;
  stop_sequence_supported = override dst.stop_sequence_supported src.stop_sequence_supported;
  temperature_range = override dst.temperature_range src.temperature_range;
}

abbrev pub no_compat : ModelCompatConfig
no_compat = record {
  supports_developer_role = none;
  supports_system_role = none;
  supports_function_call = none;
  supports_streaming = none;
  supports_vision = none;
  max_tokens_field_name = [];
  requires_max_tokens = false;
  stop_sequence_supported = none;
  temperature_range = none;
}

abbrev pub match_all : ModelCompatMatcher
match_all = record {
  provider_ids = [];
  model_ids = [];
  model_classes = [];
  api_types = [];
  base_url_contains = [];
}

unfoldable pub builtin_compat_rules : List ModelCompatRule
builtin_compat_rules =
    record {
      name = codes "o1-no-system-role";
      description =
          codes "OpenAI O1 models do not support the system role; use developer role instead.";
      matcher = record match_all {
        model_ids = codes "o1" ∷ codes "o1-mini" ∷ codes "o1-preview" ∷ [];
      };
      patches = record no_compat {
        supports_system_role = some false;
        supports_developer_role = some true;
      };
    }
    ∷ record {
      name = codes "o3-use-developer-role";
      description = codes "OpenAI O3 models prefer developer role over system role.";
      matcher = record match_all { model_ids = codes "o3-mini" ∷ codes "o3" ∷ [] };
      patches = record no_compat { supports_developer_role = some true };
    }
    ∷ record {
      name = codes "anthropic-no-developer-role";
      description = codes "Anthropic Claude models do not support the developer role.";
      matcher = record match_all { model_classes = class_claude ∷ [] };
      patches = record no_compat {
        supports_developer_role = some false;
        supports_system_role = some true;
      };
    }
    ∷ record {
      name = codes "anthropic-requires-max-tokens";
      description = codes "Anthropic requires max_tokens to be explicitly set.";
      matcher = record match_all { api_types = anthropic_messages ∷ [] };
      patches = record no_compat { requires_max_tokens = true };
    }
    ∷ record {
      name = codes "gemini-temperature-range";
      description = codes "Gemini models accept temperature in 0.0-2.0 range.";
      matcher = record match_all { model_classes = class_gemini ∷ [] };
      patches = record no_compat {
        temperature_range = some (record { min_temperature = 0; max_temperature = 20 });
      };
    }
    ∷ record {
      name = codes "ollama-no-developer-role";
      description = codes "Ollama models do not support the developer role.";
      matcher = record match_all { model_classes = class_ollama ∷ [] };
      patches = record no_compat { supports_developer_role = some false };
    }
    ∷ []

pub record CompatManager : Type 0 where
  pub rules : List ModelCompatRule
  pub cache : Assoc ModelCompatConfig

unfoldable pub new_compat_manager : List (List ModelCompatRule) → CompatManager
unfolding builtin_compat_rules
new_compat_manager plugin_rules = record {
  rules = flatten plugin_rules ++ builtin_compat_rules;
  cache = [];
}

unfoldable pub register_rule : ModelCompatRule → CompatManager → CompatManager
register_rule rule cm = record { rules = cm.rules ++ (rule ∷ []); cache = [] }

unfoldable pub invalidate_cache : CompatManager → CompatManager
invalidate_cache cm = record cm { cache = [] }

-- The loop of evaluate, from the result so far.
unfoldable pub evaluate_loop :
    ModelInstance → ModelProvider → ModelCompatConfig → List ModelCompatRule → ModelCompatConfig
unfolding matches merge_compat
evaluate_loop i p result [] = result
evaluate_loop i p result (rule ∷ rules) =
    if matches rule.matcher i p
    then evaluate_loop i p (merge_compat result rule.patches) rules
    else evaluate_loop i p result rules

unfoldable pub evaluate : List ModelCompatRule → ModelInstance → ModelProvider → ModelCompatConfig
unfolding evaluate_loop
evaluate rules i p = evaluate_loop i p no_compat rules

abbrev pub ref_of : ModelInstance → ModelRef
ref_of i = record { provider_id = i.provider_id; model_id = i.model_id }

unfoldable pub resolve_compat :
    ModelInstance → ModelProvider → CompatManager → ModelCompatConfig × CompatManager
unfolding evaluate
resolve_compat i p cm = elim (lookup (ref_string (ref_of i)) cm.cache) [
  | some cached ↦ (cached, cm)
  | none ↦
      let resolved = evaluate cm.rules i p in
      (resolved, record cm { cache = insert (ref_string (ref_of i)) resolved cm.cache })
]
