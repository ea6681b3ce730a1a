-- ===== src/Llm/Manager/Cache.antt =====
-- internal/hivemind/service/llm/domain/service/manager_impl.go: the cache of chat models.
use echoryn.Prelude.{
  Text, Assoc, lookup, delete, lookup-insert_self, lookup-delete, same_self, ◌≡◌, ◌≢◌, ◌⊎◌, refl,
  inl, inr, Option, none, some, Option-cases, arith, same_iff,
}
use echoryn.Llm.Fallback.{ModelRef, ModelStatus, ref_string}
use echoryn.Llm.Models.{ModelInstance, ModelProvider}
use echoryn.Llm.Manager.{
  Repositories, ModelManager, ManagerError, model_not_found, not_saved, Builder, built_with,
  cached_as, build_chat_model, get_chat_plugin, get_chat_model, set_model_status,
}

deleted :
    {C : Type 0} (ref : ModelRef) (m : Assoc C)
    → lookup (ref_string ref) (delete (ref_string ref) m) ≡ none
deleted ref m = simp (lookup-delete, same_self)

others :
    {C : Type 0} (ref : ModelRef) (m : Assoc C) (other : ModelRef)
    → ref_string other ≢ ref_string ref
    → lookup (ref_string other) (delete (ref_string ref) m) ≡ lookup (ref_string other) m
others ref m other apart = ground (
  arith,
  lookup-delete (ref_string ref) (ref_string other) m,
  same_iff (ref_string ref) (ref_string other),
)

module _ {S C L : Type 0} (repos : Repositories S) where
  -- A chat model that was returned is returned again, and nothing changes then; an error leaves the cache of chat
  -- models, and either way the stores are as before.
  abbrev pub IsRemembered :
      ModelRef → ModelManager S C L → (ManagerError ⊎ C) × ModelManager S C L → Type 0
  IsRemembered ref m (inr c, m') =
      (get_chat_model repos ref m' ≡ (inr c, m')) × (m'.store ≡ m.store)
  IsRemembered ref m (inl e, m') = (m'.chat_model_cache ≡ m.chat_model_cache) × (m'.store ≡ m.store)

  abbrev Keeps : ModelManager S C L → ModelManager S C L → Type 0
  Keeps m m' = (m'.chat_model_cache ≡ m.chat_model_cache) × (m'.store ≡ m.store)

  get_chat_plugin-Keeps :
      (id : Text) (m : ModelManager S C L) → Keeps m (get_chat_plugin repos id m).1
  unfolding get_chat_plugin
  get_chat_plugin-Keeps id m = elim (Option-cases (lookup id m.plugin_cache)) [
    | inl e ↦ elim (Option-cases (m.registry id)) [
      | inl g ↦ rw (get_chat_plugin, e, g) (refl, refl)
      | inr (plugin, g) ↦ rw (get_chat_plugin, e, g) (refl, refl)
    ]
    | inr (cached, e) ↦ rw (get_chat_plugin, e) (refl, refl)
  ]

  built_with-Keeps :
      (ref : ModelRef) (i : ModelInstance) (p : ModelProvider) (params : Option L)
      (m : ModelManager S C L) (r : (ManagerError ⊎ Builder C L) × ModelManager S C L)
      → Keeps m r.1
      → Keeps m (built_with repos ref i p params r).1
  built_with-Keeps ref i p params m (inl e, m') k = k
  built_with-Keeps ref i p params m (inr builder, m') k =
      elim (Option-cases (builder m'.builds i p params)) [
        | inl e ↦ rw (built_with, e) k
        | inr (c, e) ↦ rw (built_with, e) k
      ]

  build_chat_model-Keeps :
      (ref : ModelRef) (params : Option L) (m : ModelManager S C L)
      → Keeps m (build_chat_model repos ref params m).1
  unfolding build_chat_model
  build_chat_model-Keeps ref params m = elim (Option-cases (repos.find_by_ref m.store ref)) [
    | inl e ↦ rw (build_chat_model, e) (refl, refl)
    | inr (i, e) ↦ elim (Option-cases (repos.find_provider m.store ref.provider_id)) [
      | inl g ↦ rw (build_chat_model, e, g) (refl, refl)
      | inr (p, g) ↦
          rw (build_chat_model, e, g)
            (built_with-Keeps ref i p params m (get_chat_plugin repos ref.provider_id m)
              (get_chat_plugin-Keeps ref.provider_id m))
    ]
  ]

  cached_as-IsRemembered :
      (ref : ModelRef) (m : ModelManager S C L) (r : (ManagerError ⊎ C) × ModelManager S C L)
      → Keeps m r.1
      → IsRemembered ref m (cached_as repos (ref_string ref) r)
  unfolding get_chat_model
  cached_as-IsRemembered ref m (inl e, m') k = k
  cached_as-IsRemembered ref m (inr c, m') k =
      (rw (get_chat_model, lookup-insert_self (ref_string ref) c m'.chat_model_cache) refl, k.1)

  -- When GetChatModel returns a chat model, it returns the same object at the next call, without a change, and so
  -- without building another, whatever a plugin would build next; an error
  -- leaves the cache of chat models. The stores never change.
  pub get_chat_model-IsRemembered :
      (ref : ModelRef) (m : ModelManager S C L) → IsRemembered ref m (get_chat_model repos ref m)
  unfolding get_chat_model
  get_chat_model-IsRemembered ref m =
      elim (Option-cases (lookup (ref_string ref) m.chat_model_cache)) [
        | inl e ↦
            rw (get_chat_model, e)
              (cached_as-IsRemembered ref m (build_chat_model repos ref none m)
                (build_chat_model-Keeps ref none m))
        | inr (c, e) ↦ rw (get_chat_model, e) (rw (get_chat_model, e) refl, refl)
      ]

  -- What a change of the status leaves: the instance is saved with it, the next GetChatModel builds a fresh chat
  -- model, and the chat models of other references stay cached.
  abbrev pub IsReset : ModelRef → ModelStatus → ModelManager S C L → ModelManager S C L → Type 0
  IsReset ref st m m' =
      (i : ModelInstance) × (repos.find_by_ref m.store ref ≡ some i)
      × (repos.save_model (record i { status = st }) (repos.write_status i st m.store)
          ≡ some m'.store)
      × (get_chat_model repos ref m'
          ≡ cached_as repos (ref_string ref) (build_chat_model repos ref none m'))
      × ((other : ModelRef)
          → ref_string other ≢ ref_string ref
          → lookup (ref_string other) m'.chat_model_cache
            ≡ lookup (ref_string other) m.chat_model_cache)

  uncached :
      (ref : ModelRef) (m : ModelManager S C L)
      → lookup (ref_string ref) m.chat_model_cache ≡ none
      → get_chat_model repos ref m
        ≡ cached_as repos (ref_string ref) (build_chat_model repos ref none m)
  unfolding get_chat_model
  uncached ref m e = rw (get_chat_model, e) refl

  -- What an error leaves: nothing is changed where there is no such model; where it is found but not saved, its
  -- status is written through the pointer, and the caches are as before.
  abbrev pub IsUnset :
      ModelRef
      → ModelStatus
      → ModelManager S C L
      → Option ManagerError × ModelManager S C L
      → Type 0
  IsUnset ref st m (err, m') =
      ((repos.find_by_ref m.store ref ≡ none) × (err ≡ some (model_not_found ref)) × (m' ≡ m))
      ⊎ ((i : ModelInstance) × (repos.find_by_ref m.store ref ≡ some i)
          × (repos.save_model (record i { status = st }) (repos.write_status i st m.store) ≡ none)
          × (err ≡ some not_saved)
          × (m' ≡ record m { store = repos.write_status i st m.store }))

  -- SetModelStatus without an error saves the status, makes the next GetChatModel of the model build, and keeps
  -- the cached chat models of other references. It has an error exactly where the model is not found, and then
  -- changes nothing, or where the repository does not save it, and then the status is written to the object that
  -- FindByRef returned, and all chat models stay cached, that of the model too.
  pub set_model_status_correct :
      (ref : ModelRef) (st : ModelStatus) (m : ModelManager S C L)
      → let r = set_model_status repos ref st m in
        ((r.0 ≡ none) × IsReset ref st m r.1) ⊎ IsUnset ref st m r
  unfolding set_model_status
  set_model_status_correct ref st m = elim (Option-cases (repos.find_by_ref m.store ref)) [
    | inl e ↦ rw (set_model_status, e) (inr (inl (refl, refl, refl)))
    | inr (i, e) ↦
        elim (Option-cases
          (repos.save_model (record i { status = st }) (repos.write_status i st m.store))) [
            | inl g ↦ rw (set_model_status, e, g) (inr (inr (i, refl, g, refl, refl)))
            | inr (store', g) ↦
                rw (set_model_status, e, g)
                  (inl (
                    refl,
                    (
                      i,
                      refl,
                      g,
                      uncached ref _ (deleted ref m.chat_model_cache),
                      others ref m.chat_model_cache,
                    ),
                  ))
          ]
  ]
