-- ===== src/Plugin/Registry/Consistency.antt =====
-- internal/hivemind/service/plugin/registry.go: a registry that agrees with itself, and what keeps it so.
use echoryn.Prelude.{
  Text, codes, same, same_iff, Assoc, lookup, insert, lookup-insert, ◌≡◌, ◌≢◌, ◌↔◌, ◌⊎◌, refl, sym,
  ◌∙◌, inl, inr, Bool, true, not, ◌&&◌, ◌||◌, List, [], ◌∷◌, ◌++◌, none, some, All, All-map,
  All-append, Found, Found-append, Bool-cases, Option-cases, insert_keeps, Found-cons,
}
use echoryn.Plugin.Types.{Definition, Registration, a_tool, a_cli, a_hook, a_service, Plugin}
use echoryn.Plugin.Slots.{SlotConfig, is_free, desired_of}
use echoryn.Plugin.Registry.{
  Registry, CliEntry, HookEntry, ServiceEntry, new_registry, add_tool, add_cli, add_hook,
  add_service, register, register_all, register_plugin,
}

-- The configuration lets the plugin take the slot of its kind, or its kind has none.
abbrev pub is_wanted : SlotConfig → Definition → Bool
is_wanted config def =
    is_free def.kind
    || (not (same (desired_of config def.kind) (codes "none"))
        && same (desired_of config def.kind) def.id)

abbrev pub IsLoaded : Text → Registry → Type 0
IsLoaded n r = lookup n r.plugins ≢ none

-- The registry agrees with itself: the order lists the loaded plugins, whoever owns a tool, a service, a hook or
-- a command is loaded, each tool has an owner, and each plugin is one that the configuration wants.
pub record IsConsistent (config : SlotConfig) (r : Registry) : Type 0 where
  pub order : (n : Text) → Found n r.plugin_order ↔ IsLoaded n r
  pub owners : (t owner : Text) → lookup t r.tool_owners ≡ some owner → IsLoaded owner r
  pub owned : (t : Text) → lookup t r.tool_owners ≡ none → lookup t r.tools ≡ none
  pub services : All (λ (e : ServiceEntry). IsLoaded e.plugin_name r) r.services
  pub hooks : All (λ (e : HookEntry). IsLoaded e.plugin_name r) r.hooks
  pub commands : All (λ (e : CliEntry). IsLoaded e.plugin_name r) r.cli_registrars
  pub wanted :
      (n : Text) (d : Definition) → lookup n r.definitions ≡ some d → is_wanted config d ≡ true

pub new_registry-IsConsistent : (config : SlotConfig) → IsConsistent config new_registry
unfolding lookup
new_registry-IsConsistent config = record {
  order = λ n. (λ f. absurd (nothing f), λ h. absurd (h refl));
  owners = λ t o e. absurd cc;
  owned = λ t e. refl;
  services = tt;
  hooks = tt;
  commands = tt;
  wanted = λ n d e. absurd cc;
}
  where
    nothing : {n : Text} → Found n [] → ⊥
    nothing (j, e) = cc

-- A insert-some key has its new value or what it had.
insert-some :
    {V : Type 0} (k j : Text) (v w : V) (m : Assoc V)
    → lookup j (insert k v m) ≡ some w
    → (v ≡ w) ⊎ (lookup j m ≡ some w)
insert-some k j v w m e = elim (Bool-cases (same k j)) [
  | inl here ↦ let it : some v ≡ some w = sym (lookup-insert k j v m ∙ rw here refl) ∙ e in inl cc
  | inr other ↦ inr (sym (lookup-insert k j v m ∙ rw other refl) ∙ e)
]

-- A key that is missing after a write was missing before, and is not the one insert-some.
insert-none :
    {V W : Type 0} (k j : Text) (v : V) (w : W) (m : Assoc V) (m' : Assoc W)
    → (lookup j m ≡ none → lookup j m' ≡ none)
    → lookup j (insert k v m) ≡ none
    → lookup j (insert k w m') ≡ none
insert-none k j v w m m' h e = elim (Bool-cases (same k j)) [
  | inl here ↦ let bad : some v ≡ none = sym (lookup-insert k j v m ∙ rw here refl) ∙ e in absurd cc
  | inr other ↦
      let gone : lookup j m ≡ none = sym (lookup-insert k j v m ∙ rw other refl) ∙ e in
      lookup-insert k j w m' ∙ rw other (h gone)
]

register-IsConsistent :
    (config : SlotConfig) (n : Text) (x : Registration) (r : Registry)
    → IsLoaded n r
    → IsConsistent config r
    → IsConsistent config (register n x r)
unfolding register add_tool add_cli add_hook add_service
register-IsConsistent config n (a_tool tool) r here c = record {
  order = c.order;
  owners = λ t o e. elim (insert-some tool.name t n o r.tool_owners e) [
    | inl it ↦ rw (← it) here
    | inr old ↦ c.owners t o old
  ];
  owned = λ t e. insert-none tool.name t n tool r.tool_owners r.tools (c.owned t) e;
  services = c.services;
  hooks = c.hooks;
  commands = c.commands;
  wanted = c.wanted;
}
register-IsConsistent config n (a_cli x) r here c = record {
  order = c.order;
  owners = c.owners;
  owned = c.owned;
  services = c.services;
  hooks = c.hooks;
  commands =
      All-append (λ (e : CliEntry). IsLoaded e.plugin_name r) r.cli_registrars _ c.commands
        (here, tt);
  wanted = c.wanted;
}
register-IsConsistent config n (a_hook e h) r here c = record {
  order = c.order;
  owners = c.owners;
  owned = c.owned;
  services = c.services;
  hooks = All-append (λ (e : HookEntry). IsLoaded e.plugin_name r) r.hooks _ c.hooks (here, tt);
  commands = c.commands;
  wanted = c.wanted;
}
register-IsConsistent config n (a_service s) r here c = record {
  order = c.order;
  owners = c.owners;
  owned = c.owned;
  services =
      All-append (λ (e : ServiceEntry). IsLoaded e.plugin_name r) r.services _ c.services
        (here, tt);
  hooks = c.hooks;
  commands = c.commands;
  wanted = c.wanted;
}

-- A registration loads no plugin.
register_fixed :
    (n : Text) (x : Registration) (r : Registry)
    → ((register n x r).plugins ≡ r.plugins) × ((register n x r).plugin_order ≡ r.plugin_order)
unfolding register add_tool add_cli add_hook add_service
register_fixed n (a_tool tool) r = (refl, refl)
register_fixed n (a_cli x) r = (refl, refl)
register_fixed n (a_hook e h) r = (refl, refl)
register_fixed n (a_service s) r = (refl, refl)

-- What registrations of a loaded plugin keep.
abbrev pub Kept : SlotConfig → Registry → Registry → Type 0
Kept config r r' =
    IsConsistent config r' × (r'.plugins ≡ r.plugins) × (r'.plugin_order ≡ r.plugin_order)

pub register_all-Kept :
    (config : SlotConfig) (n : Text) (xs : List Registration) (r : Registry)
    → IsLoaded n r
    → IsConsistent config r
    → Kept config r (register_all n xs r)
unfolding register_all
register_all-Kept config n [] r here c = (c, refl, refl)
register_all-Kept config n (x ∷ xs) r here c =
    let (plugins, order) = register_fixed n x r in
    let (c', plugins', order') =
      register_all-Kept config n xs (register n x r) (rw plugins here)
        (register-IsConsistent config n x r here c) in
    (c', plugins' ∙ plugins, order' ∙ order)

-- A plugin of a new name is added to the registry.
pub register_plugin_lem :
    (config : SlotConfig) (def : Definition) (p : Plugin) (r : Registry)
    → is_wanted config def ≡ true
    → IsConsistent config r
    → (register_plugin p.name def p r ≡ none)
      ⊎ ((r' : Registry) × (register_plugin p.name def p r ≡ some r')
          × IsConsistent config r'
          × IsLoaded p.name r'
          × (r'.plugin_order ≡ r.plugin_order ++ (p.name ∷ [])))
unfolding register_plugin
register_plugin_lem config def p r want c = elim (Option-cases (lookup p.name r.plugins)) [
  | inr (old, taken) ↦ inl (rw (register_plugin, taken) refl)
  | inl fresh ↦ inr (
    record r {
      plugins = insert p.name p r.plugins;
      definitions = insert p.name def r.definitions;
      plugin_order = r.plugin_order ++ (p.name ∷ []);
    },
    rw (register_plugin, fresh) refl,
    record {
      order = λ n. (listed n, found n);
      owners = λ t o e. more o (c.owners t o e);
      owned = c.owned;
      services = All-map (λ e. more e.plugin_name) r.services c.services;
      hooks = All-map (λ e. more e.plugin_name) r.hooks c.hooks;
      commands = All-map (λ e. more e.plugin_name) r.cli_registrars c.commands;
      wanted = λ n d e. elim (insert-some p.name n def d r.definitions e) [
        | inl it ↦ rw (← it) want
        | inr old ↦ c.wanted n d old
      ];
    },
    insert_keeps p.name p.name p r.plugins (inr refl),
    refl,
  )
]
  where
    more : (n : Text) → IsLoaded n r → lookup n (insert p.name p r.plugins) ≢ none
    more n h = insert_keeps p.name n p r.plugins (inl h)

    only : (n : Text) → Found n (p.name ∷ []) → p.name ≡ n
    only n f = elim ((Found-cons n p.name []).0 f) [ inl e ↦ e | inr (j, e) ↦ absurd cc ]

    listed :
        (n : Text)
        → Found n (r.plugin_order ++ (p.name ∷ []))
        → lookup n (insert p.name p r.plugins) ≢ none
    listed n f = elim ((Found-append n r.plugin_order (p.name ∷ [])).0 f) [
      | inl old ↦ more n ((c.order n).0 old)
      | inr last ↦ insert_keeps p.name n p r.plugins (inr (only n last))
    ]

    found :
        (n : Text)
        → lookup n (insert p.name p r.plugins) ≢ none
        → Found n (r.plugin_order ++ (p.name ∷ []))
    found n h = elim (Bool-cases (same p.name n)) [
      | inl here ↦
          (Found-append n r.plugin_order (p.name ∷ [])).1
            (inr ((Found-cons n p.name []).1 (inl ((same_iff p.name n).0 here))))
      | inr other ↦
          (Found-append n r.plugin_order (p.name ∷ [])).1
            (inl ((c.order n).1 (λ e. h (lookup-insert p.name n p r.plugins ∙ rw other e))))
    ]
