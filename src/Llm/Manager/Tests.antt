-- ===== src/Llm/Manager/Tests.antt =====
-- internal/hivemind/service/llm/domain/service/manager_impl.go: runs of the model, and the theorems at concrete inputs.
use echoryn.Prelude.{
  decimal, ℕ, ◌++◌, ◌==◌, Text, codes, same, lookup, insert, ◌≡◌, ◌⊎◌, refl, Bool, ◌&&◌, Option,
  none, some, inl, inr, List, [], ◌∷◌, if◌then◌else◌,
}
use echoryn.Llm.Fallback.{ModelRef, ModelStatus, ref_string, ready, disabled}
use echoryn.Llm.Models.{ModelInstance, class_claude, anthropic_messages}
use echoryn.Llm.Manager.{
  Repositories, ProviderPlugin, ModelManager, provider_not_registered, get_chat_model,
  get_default_chat_model, register_model, set_model_status, not_saved,
}
use echoryn.Llm.Manager.Cache.{
  IsRemembered, IsReset, IsUnset, get_chat_model-IsRemembered, set_model_status_correct,
}

abbrev is_ref : ModelRef → ModelInstance → Bool
is_ref ref i = same i.provider_id ref.provider_id && same i.model_id ref.model_id

abbrev find : List ModelInstance → ModelRef → Option ModelInstance
find [] ref = none
find (i ∷ is) ref = if is_ref ref i then some i else find is ref

abbrev head_of : List ModelInstance → Option ModelInstance
head_of [] = none
head_of (i ∷ is) = some i

-- The store returns its own objects, which are told apart by their id.
abbrev rewritten : ℕ → ModelStatus → List ModelInstance → List ModelInstance
rewritten id st [] = []
rewritten id st (i ∷ is) =
    if i.id == id then record i { status = st } ∷ is else i ∷ rewritten id st is

abbrev repos : Repositories (List ModelInstance)
repos = record {
  find_by_ref = find;
  find_default = head_of;
  write_status = λ i st is. rewritten i.id st is;
  save_model = λ i is. some (i ∷ is);
  find_provider = λ is id.
      if same id (codes "p")
      then some (record {
        id = codes "p";
        base_url = codes "https://p";
        model_class = class_claude;
        api = anthropic_messages;
      })
      else none;
  save_provider = λ p is. some is;
}

abbrev instance_m : ModelInstance
instance_m = record { id = 1; model_id = codes "m"; provider_id = codes "p"; status = ready }

abbrev ref_m : ModelRef
ref_m = record { provider_id = codes "p"; model_id = codes "m" }

abbrev plugin : ProviderPlugin Text Bool
plugin = record { build_chat = some (λ n i p params. some (i.model_id ++ decimal n)) }

abbrev manager : ModelManager (List ModelInstance) Text Bool
manager = record {
  store = instance_m ∷ [];
  registry = λ id. some plugin;
  compat_mgr = record { rules = []; cache = [] };
  chat_model_cache = [];
  plugin_cache = [];
  builds = 0;
}

-- The default model is built and stays cached.
default_run : get_default_chat_model repos manager ≡ (
  inr (codes "m0"),
  record manager {
    chat_model_cache = (codes "p/m", codes "m0") ∷ [];
    plugin_cache = (codes "p", plugin) ∷ [];
    builds = 1;
  },
)
unfolding get_default_chat_model lookup insert ref_string same decimal
default_run = refl

-- A model of a provider that is not registered is refused.
refused_run :
    (register_model repos (record instance_m { provider_id = codes "q" }) manager).0
    ≡ inl (provider_not_registered (codes "q"))
unfolding register_model same
refused_run = refl

-- An instance that is not saved has the new status all the same.
unsaved_run :
    set_model_status (record repos { save_model = λ i is. none }) ref_m disabled manager
    ≡ (some not_saved, record manager { store = record instance_m { status = disabled } ∷ [] })
unfolding set_model_status same
unsaved_run = refl

get_chat_model-IsRemembered_example :
    IsRemembered repos ref_m manager (get_chat_model repos ref_m manager)
get_chat_model-IsRemembered_example = get_chat_model-IsRemembered repos ref_m manager

set_model_status_correct_example :
    let r = set_model_status repos ref_m disabled manager in
    ((r.0 ≡ none) × IsReset repos ref_m disabled manager r.1)
    ⊎ IsUnset repos ref_m disabled manager r
set_model_status_correct_example = set_model_status_correct repos ref_m disabled manager
