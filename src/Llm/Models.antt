-- ===== src/Llm/Models.antt =====
-- internal/hivemind/service/llm/domain/entity/model_instance.go and model_provider.go: the fields of an instance and of a
-- provider by which the rules of compatibility choose. A class is its number.
use echoryn.Prelude.{Text, codes, ℕ}
use echoryn.Llm.Fallback.{ModelStatus}

abbrev pub ModelClass : Type 0
ModelClass = ℕ

abbrev pub class_gemini : ModelClass
class_gemini = 3

abbrev pub class_ollama : ModelClass
class_ollama = 5

abbrev pub class_claude : ModelClass
class_claude = 6

abbrev pub anthropic_messages : Text
anthropic_messages = codes "anthropic-messages"

pub record ModelInstance : Type 0 where
  pub id : ℕ
  pub model_id : Text
  pub provider_id : Text
  pub status : ModelStatus

pub record ModelProvider : Type 0 where
  pub id : Text
  pub base_url : Text
  pub model_class : ModelClass
  pub api : Text
