-- ===== src/Plugin/Framework/Loading.antt =====
-- internal/hivemind/service/plugin/framework.go: what Init loads, and the registry that it leaves.
use mathlib.Core.List.{append-nil, append_assoc}
use echoryn.Prelude.{
  Text, codes, same, same_iff, Assoc, lookup, insert, lookup-insert, ◌≡◌, ◌⊎◌, refl, sym, ap, ◌∙◌,
  inl, inr, Bool, true, false, not, ◌&&◌, List, [], ◌∷◌, ◌++◌, map, Option, none, some, Bool-cases,
  Option-cases, if◌then◌else◌,
}
use echoryn.Plugin.Types.{Definition, Plugin}
use echoryn.Plugin.Slots.{
  SlotConfig, SlotError, disabled, assigned_to, is_free, desired_of, resolve_slot,
}
use echoryn.Plugin.Registry.{Registry}
use echoryn.Plugin.Framework.{
  Framework, RegisteredFactory, Made, made, not_made, InitError, call_init, set_up,
  probe_and_register, provided, load_plugin, occupy, init_loop, init,
}
use echoryn.Plugin.Registry.Consistency.{
  is_wanted, IsLoaded, IsConsistent, Kept, register_all-Kept, register_plugin_lem,
}

-- A slot is taken only by the plugin that the configuration wants in it.
abbrev IsDesired : SlotConfig → Assoc Text → Type 0
IsDesired config active =
    (k occupant : Text) → lookup k active ≡ some occupant → occupant ≡ desired_of config k

resolve_slot_iff :
    (def : Definition) (active : Assoc Text) (config : SlotConfig)
    → IsDesired config active
    → ((resolve_slot def active config ≡ none) × (is_wanted config def ≡ true))
      ⊎ ((err : SlotError) × (resolve_slot def active config ≡ some err)
          × (is_wanted config def ≡ false))
unfolding resolve_slot
resolve_slot_iff def active config desired = elim (Bool-cases (is_free def.kind)) [
  | inl free ↦ inl (rw (resolve_slot, free) refl, rw free refl)
  | inr slot ↦ elim (Bool-cases (same (desired_of config def.kind) (codes "none"))) [
    | inl off ↦ inr (disabled def.kind, rw (resolve_slot, slot, off) refl, rw (slot, off) refl)
    | inr on ↦ elim (Bool-cases (same (desired_of config def.kind) def.id)) [
      | inr other ↦ inr (
        assigned_to def.kind (desired_of config def.kind) def.id,
        rw (resolve_slot, slot, on, other) refl,
        rw (slot, on, other) refl,
      )
      | inl mine ↦ elim (Option-cases (lookup def.kind active)) [
        | inl empty ↦ inl (rw (resolve_slot, slot, on, mine, empty) refl, rw (slot, on, mine) refl)
        | inr (o, taken) ↦
            let it : same o def.id ≡ true = rw (desired def.kind o taken) mine in
            inl (rw (resolve_slot, slot, on, mine, taken, it) refl, rw (slot, on, mine) refl)
      ]
    ]
  ]
]

-- The names that a factory adds.
abbrev pub name_of : RegisteredFactory → List Text
name_of entry = elim entry.factory [ made p ↦ p.name ∷ [] | not_made _ ↦ [] ]

-- What loading keeps, and what it adds when it goes through.
abbrev pub Loads : Framework → List Text → Framework × Option InitError → Type 0
Loads f names out =
    IsConsistent f.slot_config out.0.registry
    × (out.0.slot_config ≡ f.slot_config)
    × (out.1 ≡ none → out.0.registry.plugin_order ≡ f.registry.plugin_order ++ names)

call_init-Kept :
    (config : SlotConfig) (p : Plugin) (r : Registry)
    → IsLoaded p.name r
    → IsConsistent config r
    → Kept config r (call_init p r).0
unfolding call_init
call_init-Kept config p r here c = elim (Option-cases p.init) [
  | inl e ↦ rw (call_init, e) (c, refl, refl)
  | inr (call, e) ↦ rw (call_init, e) (register_all-Kept config p.name call.registers r here c)
]

-- Setting up a loaded plugin keeps the registry consistent and loads no other.
set_up-Kept :
    (def : Definition) (p : Plugin) (f : Framework)
    → IsLoaded p.name f.registry
    → IsConsistent f.slot_config f.registry
    → Kept f.slot_config f.registry (set_up def p f).0.registry
      × ((set_up def p f).0.slot_config ≡ f.slot_config)
unfolding set_up probe_and_register
set_up-Kept def p f here c =
    let (c1, plugins, order) = call_init-Kept f.slot_config p f.registry here c in
    elim (Option-cases (call_init p f.registry).1) [
      | inr (e, failed) ↦ rw (set_up, failed) ((c1, plugins, order), refl)
      | inl fine ↦
          let (c2, plugins', order') =
            register_all-Kept f.slot_config p.name (provided p) (call_init p f.registry).0
              (rw plugins here) c1 in
          rw (set_up, fine) ((c2, plugins' ∙ plugins, order' ∙ order), refl)
    ]

Made-cases : (m : Made) → ((p : Plugin) × (m ≡ made p)) ⊎ ((e : Text) × (m ≡ not_made e))
Made-cases (made p) = inl (p, refl)
Made-cases (not_made e) = inr (e, refl)

load_plugin-Loads :
    (entry : RegisteredFactory) (f : Framework)
    → is_wanted f.slot_config entry.definition ≡ true
    → IsConsistent f.slot_config f.registry
    → Loads f (name_of entry) (load_plugin entry f)
unfolding load_plugin
load_plugin-Loads entry f want c = elim (Made-cases entry.factory) [
  | inr (e, failed) ↦ rw (load_plugin, failed) (c, refl, λ h. absurd cc)
  | inl (p, built) ↦ elim (register_plugin_lem f.slot_config entry.definition p f.registry want c) [
    | inl taken ↦ rw (load_plugin, built, taken) (c, refl, λ h. absurd cc)
    | inr (r', put, c', here, order) ↦
        let (kept, config) = set_up-Kept entry.definition p (record f { registry = r' }) here c' in
        rw (load_plugin, name_of, built, put) (kept.0, config, λ h. kept.2 ∙ order)
  ]
]

-- The names of the factories that the configuration wants, in the order of the list.
abbrev pub wanted_names : SlotConfig → List RegisteredFactory → List Text
wanted_names config [] = []
wanted_names config (entry ∷ entries) =
    if is_wanted config entry.definition
    then name_of entry ++ wanted_names config entries
    else wanted_names config entries

-- A wanted plugin of a kind with a slot is the one desired for it.
wanted_slot :
    (config : SlotConfig) (def : Definition)
    → is_free def.kind ≡ false
    → is_wanted config def ≡ true
    → desired_of config def.kind ≡ def.id
wanted_slot config def slot want = (same_iff (desired_of config def.kind) def.id).0 (
    both (same (desired_of config def.kind) (codes "none"))
      (same (desired_of config def.kind) def.id) (rw slot at want))
  where
    both : (a b : Bool) → (not a && b) ≡ true → b ≡ true
    both true b h = cc
    both false b h = h

-- A plugin that was loaded takes the slot that it is desired for.
occupy-IsDesired :
    (config : SlotConfig) (def : Definition) (active : Assoc Text)
    → is_wanted config def ≡ true
    → IsDesired config active
    → IsDesired config (occupy def active)
occupy-IsDesired config def active want h = elim (Bool-cases (is_free def.kind)) [
  | inl free ↦ rw (occupy, free) h
  | inr slot ↦ rw (occupy, slot) (λ k o e. taken slot k o e)
]
  where
    taken :
        is_free def.kind ≡ false
        → (k o : Text) → lookup k (insert def.kind def.id active) ≡ some o
        → o ≡ desired_of config k
    taken slot k o e = elim (Bool-cases (same def.kind k)) [
      | inr other ↦ h k o (sym (lookup-insert def.kind k def.id active ∙ rw other refl) ∙ e)
      | inl here ↦
          let it : some def.id ≡ some o =
            sym (lookup-insert def.kind k def.id active ∙ rw here refl) ∙ e in
          let mine : def.id ≡ o = cc in
          sym mine
          ∙ sym (wanted_slot config def slot want)
          ∙ ap (desired_of config) ((same_iff def.kind k).0 here)
    ]

init_loop-Loads :
    (active : Assoc Text) (entries : List RegisteredFactory) (f : Framework)
    → IsDesired f.slot_config active
    → IsConsistent f.slot_config f.registry
    → Loads f (wanted_names f.slot_config entries) (init_loop active entries f)
unfolding init_loop
init_loop-Loads active [] f d c = (c, refl, λ h. sym (append-nil f.registry.plugin_order))
init_loop-Loads active (entry ∷ entries) f d c =
    elim (resolve_slot_iff entry.definition active f.slot_config d) [
      | inr (err, skip, unwanted) ↦
          rw (init_loop, skip, wanted_names, unwanted) (init_loop-Loads active entries f d c)
      | inl (free, want) ↦
          let (c1, config, order) = load_plugin-Loads entry f want c in
          elim (Option-cases (load_plugin entry f).1) [
            | inr (e, failed) ↦
                rw (init_loop, free, wanted_names, want, failed) (c1, config, λ h. absurd cc)
            | inl fine ↦
                let f1 = (load_plugin entry f).0 in
                let (c2, config', order') =
                  init_loop-Loads (occupy entry.definition active) entries f1
                    (rw config (occupy-IsDesired f.slot_config entry.definition active want d))
                    (rw config c1) in
                rw (init_loop, free, wanted_names, want, fine)
                  (
                    rw config at c2,
                    config' ∙ config,
                    λ h.
                        order' h
                        ∙ rw (order fine, config)
                            (append_assoc f.registry.plugin_order (name_of entry)
                              (wanted_names f.slot_config entries)),
                  )
          ]
    ]

-- Init of a framework whose registry agrees with itself leaves such a registry, also when it ends in an
-- error. When it returns no error, it adds exactly the plugins of the factories that the configuration
-- wants, in the order in which the factories are visited. Each loaded definition of a kind with a slot has
-- the id that is desired for the slot.
pub init_correct :
    (f : Framework)
    → IsConsistent f.slot_config f.registry
    → IsConsistent f.slot_config (init f).0.registry
      × ((init f).1 ≡ none
          → (init f).0.registry.plugin_order
            ≡ f.registry.plugin_order ++ wanted_names f.slot_config (map (λ e. e.1) f.factories))
      × ((n : Text) (d : Definition)
          → lookup n (init f).0.registry.definitions ≡ some d
          → is_free d.kind ≡ false
          → d.id ≡ desired_of f.slot_config d.kind)
unfolding init lookup
init_correct f c =
    let (c', _, order) = init_loop-Loads [] (map (λ e. e.1) f.factories) f (λ k o e. absurd cc) c in
    (c', order, λ n d e slot. sym (wanted_slot f.slot_config d slot (c'.wanted n d e)))
