-- ===== src/Llm/Manager.antt =====
-- internal/hivemind/service/llm/domain/service/manager_impl.go: the manager of models. The repositories are an argument, with
-- a state of their own; `none` is an error of theirs, or of a plugin. A factory of the registry makes equal plugins. Each
-- build makes an object of its own, so that what a plugin builds depends on the number of the builds before it.
pub mod Cache
pub mod Tests
use echoryn.Prelude.{
  Text, Assoc, lookup, insert, delete, is_empty, Option, none, some, ◌⊎◌, inl, inr, if◌then◌else◌,
  [], ℕ, ◌+◌,
}
use echoryn.Llm.Fallback.{ModelRef, ModelStatus, ready, ref_string}
use echoryn.Llm.Models.{ModelInstance, ModelProvider}
use echoryn.Llm.Compat.{ModelCompatConfig, CompatManager, resolve_compat, ref_of}

-- What the manager calls of the two repositories.
pub record Repositories (S : Type 0) : Type 0 where
  pub find_by_ref : S → ModelRef → Option ModelInstance
  pub find_default : S → Option ModelInstance
  -- A write of the status through the pointer that FindByRef returned for the instance. It changes a store that
  -- returns its own objects, as the one in memory does, and leaves one that returns copies.
  pub write_status : ModelInstance → ModelStatus → S → S
  pub save_model : ModelInstance → S → Option S
  pub find_provider : S → Text → Option ModelProvider
  pub save_provider : ModelProvider → S → Option S

-- A plugin, as far as it implements ChatModelPlugin: what builds a model `C` with the parameters `L`, by
-- the number of the build.
abbrev pub Builder : Type 0 → Type 0 → Type 0
Builder C L = ℕ → ModelInstance → ModelProvider → Option L → Option C

pub record ProviderPlugin (C L : Type 0) : Type 0 where
  pub build_chat : Option (Builder C L)

pub data ManagerError : Type 0 where
  provider_id_required model_id_required no_default_model not_saved : ManagerError
  provider_not_registered provider_not_found plugin_not_found no_chat_plugin : Text → ManagerError
  model_not_found build_failed : ModelRef → ManagerError

pub record ModelManager (S C L : Type 0) : Type 0 where
  pub store : S
  pub registry : Text → Option (ProviderPlugin C L)
  pub compat_mgr : CompatManager
  pub chat_model_cache : Assoc C
  pub plugin_cache : Assoc (ProviderPlugin C L)
  -- The world: how many chat models were to be built so far.
  pub builds : ℕ

abbrev pub chat_plugin : {C L : Type 0} → Text → ProviderPlugin C L → ManagerError ⊎ Builder C L
chat_plugin provider_id plugin = elim plugin.build_chat [
  | none ↦ inl (no_chat_plugin provider_id)
  | some builder ↦ inr builder
]

module _ {S C L : Type 0} (repos : Repositories S) where
  unfoldable pub register_provider :
      ModelProvider → ModelManager S C L → Option ManagerError × ModelManager S C L
  register_provider p m =
      if is_empty p.id
      then (some provider_id_required, m)
      else elim (repos.save_provider p m.store) [
        | none ↦ (some not_saved, m)
        | some store' ↦ (none, record m { store = store' })
      ]

  -- An instance without a status has the status 0, which is `ready`.
  unfoldable pub register_model :
      ModelInstance → ModelManager S C L → (ManagerError ⊎ ℕ) × ModelManager S C L
  register_model i m =
      if is_empty i.model_id
      then (inl model_id_required, m)
      else if is_empty i.provider_id
      then (inl provider_id_required, m)
      else elim (repos.find_provider m.store i.provider_id) [
        | none ↦ (inl (provider_not_registered i.provider_id), m)
        | some p ↦ elim (repos.save_model i m.store) [
          | none ↦ (inl not_saved, m)
          | some store' ↦ (inr i.id, record m { store = store' })
        ]
      ]

  unfoldable pub get_chat_plugin :
      Text → ModelManager S C L → (ManagerError ⊎ Builder C L) × ModelManager S C L
  get_chat_plugin provider_id m = elim (lookup provider_id m.plugin_cache) [
    | some cached ↦ (chat_plugin provider_id cached, m)
    | none ↦ elim (m.registry provider_id) [
      | none ↦ (inl (plugin_not_found provider_id), m)
      | some plugin ↦ (
        chat_plugin provider_id plugin,
        record m { plugin_cache = insert provider_id plugin m.plugin_cache },
      )
    ]
  ]

  abbrev pub built_with :
      ModelRef
      → ModelInstance
      → ModelProvider
      → Option L
      → (ManagerError ⊎ Builder C L) × ModelManager S C L
      → (ManagerError ⊎ C) × ModelManager S C L
  built_with ref i p params (inl e, m) = (inl e, m)
  built_with ref i p params (inr builder, m) =
      let m' = record m { builds = m.builds + 1 } in
      elim (builder m.builds i p params) [
        | none ↦ (inl (build_failed ref), m')
        | some c ↦ (inr c, m')
      ]

  unfoldable pub build_chat_model :
      ModelRef → Option L → ModelManager S C L → (ManagerError ⊎ C) × ModelManager S C L
  unfolding get_chat_plugin
  build_chat_model ref params m = elim (repos.find_by_ref m.store ref) [
    | none ↦ (inl (model_not_found ref), m)
    | some i ↦ elim (repos.find_provider m.store ref.provider_id) [
      | none ↦ (inl (provider_not_found ref.provider_id), m)
      | some p ↦ built_with ref i p params (get_chat_plugin ref.provider_id m)
    ]
  ]

  abbrev pub cached_as :
      Text → (ManagerError ⊎ C) × ModelManager S C L → (ManagerError ⊎ C) × ModelManager S C L
  cached_as key (inl e, m) = (inl e, m)
  cached_as key (inr c, m) =
      (inr c, record m { chat_model_cache = insert key c m.chat_model_cache })

  unfoldable pub get_chat_model :
      ModelRef → ModelManager S C L → (ManagerError ⊎ C) × ModelManager S C L
  unfolding build_chat_model
  get_chat_model ref m = elim (lookup (ref_string ref) m.chat_model_cache) [
    | some cached ↦ (inr cached, m)
    | none ↦ cached_as (ref_string ref) (build_chat_model ref none m)
  ]

  unfoldable pub get_default_chat_model :
      ModelManager S C L → (ManagerError ⊎ C) × ModelManager S C L
  unfolding get_chat_model
  get_default_chat_model m = elim (repos.find_default m.store) [
    | none ↦ (inl no_default_model, m)
    | some i ↦ get_chat_model (ref_of i) m
  ]

  unfoldable pub resolve_compat_of :
      ModelRef → ModelManager S C L → (ManagerError ⊎ ModelCompatConfig) × ModelManager S C L
  resolve_compat_of ref m = elim (repos.find_by_ref m.store ref) [
    | none ↦ (inl (model_not_found ref), m)
    | some i ↦ elim (repos.find_provider m.store ref.provider_id) [
      | none ↦ (inl (provider_not_found ref.provider_id), m)
      | some p ↦
          let (config, compat_mgr') = resolve_compat i p m.compat_mgr in
          (inr config, record m { compat_mgr = compat_mgr' })
    ]
  ]

  unfoldable pub set_model_status :
      ModelRef → ModelStatus → ModelManager S C L → Option ManagerError × ModelManager S C L
  set_model_status ref st m = elim (repos.find_by_ref m.store ref) [
    | none ↦ (some (model_not_found ref), m)
    | some i ↦
        let written = repos.write_status i st m.store in
        elim (repos.save_model (record i { status = st }) written) [
          | none ↦ (some not_saved, record m { store = written })
          | some store' ↦ (
            none,
            record m {
              store = store';
              chat_model_cache = delete (ref_string ref) m.chat_model_cache;
            },
          )
        ]
  ]
