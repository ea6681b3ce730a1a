-- ===== src/Plugin/Framework/Order.antt =====
-- internal/hivemind/service/plugin/framework.go: the order of start and stop.
use mathlib.Core.List.{append-nil, append_assoc}
use echoryn.Prelude.{
  ◌⊎◌, reverse, reverse-append, map-append, map-reverse, Text, ◌≡◌, refl, ◌∙◌, sym, ap, List, [],
  ◌∷◌, ◌++◌, map, none, some, Option-cases, inl, inr,
}
use echoryn.Plugin.Types.{server_start, server_stop, ServiceDefinition}
use echoryn.Plugin.Registry.{Registry, fire_hooks, get_services, plugin_names}
use echoryn.Plugin.Framework.{
  Framework, Effect, plugin_starts, plugin_stops, service_starts, service_stops, hook_runs,
  lifecycle_of, start_plugins, start_services, start, stop_plugins, stop, Lifecycle,
}

-- The stop that belongs to a start.
abbrev pub undo : Effect → Effect
undo (plugin_starts name) = plugin_stops name
undo (service_starts name) = service_stops name
undo e = e

-- The plugins of the list that have a start and a stop.
abbrev pub with_lifecycle : List Text → Registry → List Text
with_lifecycle [] r = []
with_lifecycle (n ∷ names) r = elim (lifecycle_of n r) [
  | none ↦ with_lifecycle names r
  | some l ↦ n ∷ with_lifecycle names r
]

-- What a start that goes through calls before the hooks.
abbrev pub starts_of : Registry → List Effect
starts_of r =
    map plugin_starts (with_lifecycle (plugin_names r) r)
    ++ map (λ s. service_starts s.name) (get_services r)

with_lifecycle-append :
    (xs ys : List Text) (r : Registry)
    → with_lifecycle (xs ++ ys) r ≡ with_lifecycle xs r ++ with_lifecycle ys r
with_lifecycle-append [] ys r = refl
with_lifecycle-append (x ∷ xs) ys r = elim (Option-cases (lifecycle_of x r)) [
  | inl plain ↦ rw (with_lifecycle, plain) (with_lifecycle-append xs ys r)
  | inr (l, e) ↦ rw (with_lifecycle, e) (ap (◌∷◌ x) (with_lifecycle-append xs ys r))
]

with_lifecycle-reverse :
    (xs : List Text) (r : Registry) → with_lifecycle (reverse xs) r ≡ reverse (with_lifecycle xs r)
with_lifecycle-reverse [] r = refl
with_lifecycle-reverse (x ∷ xs) r =
    with_lifecycle-append (reverse xs) (x ∷ []) r
    ∙ last (Option-cases (lifecycle_of x r)) (with_lifecycle-reverse xs r)
  where
    last :
        (lifecycle_of x r ≡ none) ⊎ ((l : Lifecycle) × (lifecycle_of x r ≡ some l))
        → with_lifecycle (reverse xs) r ≡ reverse (with_lifecycle xs r)
        → with_lifecycle (reverse xs) r ++ with_lifecycle (x ∷ []) r
          ≡ reverse (with_lifecycle (x ∷ xs) r)
    last (inl plain) ih = rw (with_lifecycle, plain) (rw append-nil ih)
    last (inr (l, e)) ih = rw (with_lifecycle, e) (ap (λ ys. ys ++ (x ∷ [])) ih)

stop_plugins_lem :
    (names : List Text) (r : Registry)
    → stop_plugins names r ≡ map plugin_stops (with_lifecycle names r)
unfolding stop_plugins
stop_plugins_lem [] r = refl
stop_plugins_lem (n ∷ names) r = elim (Option-cases (lifecycle_of n r)) [
  | inl plain ↦ rw (stop_plugins, with_lifecycle, plain) (stop_plugins_lem names r)
  | inr (l, e) ↦
      rw (stop_plugins, with_lifecycle, e) (ap (◌∷◌ (plugin_stops n)) (stop_plugins_lem names r))
]

start_plugins_lem :
    (names : List Text) (r : Registry)
    → (start_plugins names r).1 ≡ none
    → (start_plugins names r).0 ≡ map plugin_starts (with_lifecycle names r)
unfolding start_plugins
start_plugins_lem [] r h = refl
start_plugins_lem (n ∷ names) r h = elim (Option-cases (lifecycle_of n r)) [
  | inl plain ↦
      rw (start_plugins, with_lifecycle, plain)
        (start_plugins_lem names r (rw (start_plugins, plain) at h))
  | inr (l, e) ↦ elim (Option-cases l.start_error) [
    | inl fine ↦
        rw (start_plugins, with_lifecycle, e, fine)
          (ap (◌∷◌ (plugin_starts n))
            (start_plugins_lem names r (rw (start_plugins, e, fine) at h)))
    | inr (err, bad) ↦ let failed = rw (start_plugins, e, bad) at h in absurd cc
  ]
]

start_services_lem :
    (svcs : List ServiceDefinition)
    → (start_services svcs).1 ≡ none
    → (start_services svcs).0 ≡ map (λ s. service_starts s.name) svcs
unfolding start_services
start_services_lem [] h = refl
start_services_lem (svc ∷ svcs) h = elim (Option-cases svc.start_error) [
  | inl fine ↦
      rw (start_services, fine)
        (ap (◌∷◌ (service_starts svc.name))
          (start_services_lem svcs (rw (start_services, fine) at h)))
  | inr (err, bad) ↦ let failed = rw (start_services, bad) at h in absurd cc
]

undo_plugins : (xs : List Text) → map undo (map plugin_starts xs) ≡ map plugin_stops xs
undo_plugins [] = refl
undo_plugins (x ∷ xs) = ap (◌∷◌ (plugin_stops x)) (undo_plugins xs)

undo_services :
    (svcs : List ServiceDefinition)
    → map undo (map (λ s. service_starts s.name) svcs) ≡ map (λ s. service_stops s.name) svcs
undo_services [] = refl
undo_services (svc ∷ svcs) = ap (◌∷◌ (service_stops svc.name)) (undo_services svcs)

undo_all :
    (xs : List Text) (svcs : List ServiceDefinition)
    → map (λ s. service_stops s.name) (reverse svcs) ++ map plugin_stops (reverse xs)
      ≡ reverse (map undo (map plugin_starts xs ++ map (λ s. service_starts s.name) svcs))
undo_all xs svcs =
    rw
      (
        map-append undo (map plugin_starts xs) (map (λ s. service_starts s.name) svcs),
        reverse-append (map undo (map plugin_starts xs))
            (map undo (map (λ s. service_starts s.name) svcs)),
        undo_plugins xs,
        undo_services svcs,
        map-reverse plugin_stops xs,
        map-reverse (λ (s : ServiceDefinition). service_stops s.name) svcs,
      )
      refl

-- A start of the framework that returns no error starts each plugin that has a start, in the order of their
-- registration, then each service, and then runs the hooks of the start. The stop runs the hooks of the stop, and then
-- stops exactly what the start started, in the opposite order.
pub stop-start :
    (f : Framework)
    → (start f).1 ≡ none
    → ((start f).0 ≡ starts_of f.registry ++ map hook_runs (fire_hooks server_start f.registry).0)
      × (stop f
          ≡ map hook_runs (fire_hooks server_stop f.registry).0
            ++ reverse (map undo (starts_of f.registry)))
unfolding start stop
stop-start f h =
    let r = f.registry in
    (
      begins (Option-cases (start_plugins (plugin_names r) r).1)
          (Option-cases (start_services (get_services r)).1) h,
      ap (λ ends. map hook_runs (fire_hooks server_stop r).0 ++ ends)
          (rw
            (
              stop_plugins_lem (reverse (plugin_names r)) r,
              with_lifecycle-reverse (plugin_names r) r,
            )
            (undo_all (with_lifecycle (plugin_names r) r) (get_services r))),
    )
  where
    begins :
        ((start_plugins (plugin_names f.registry) f.registry).1 ≡ none)
          ⊎ ((e : Text) × ((start_plugins (plugin_names f.registry) f.registry).1 ≡ some e))
        → ((start_services (get_services f.registry)).1 ≡ none)
          ⊎ ((e : Text) × ((start_services (get_services f.registry)).1 ≡ some e))
        → (start f).1 ≡ none
        → (start f).0 ≡ starts_of f.registry ++ map hook_runs (fire_hooks server_start f.registry).0
    begins (inr (e, bad)) _ h = let failed = rw (start, bad) at h in absurd cc
    begins (inl fine) (inr (e, bad)) h = let failed = rw (start, fine, bad) at h in absurd cc
    begins (inl fine) (inl well) h =
        rw
          (
            start,
            fine,
            well,
            start_plugins_lem (plugin_names f.registry) f.registry fine,
            start_services_lem (get_services f.registry) well,
          )
          (sym (
            append_assoc (map plugin_starts (with_lifecycle (plugin_names f.registry) f.registry))
              (map (λ s. service_starts s.name) (get_services f.registry))
              (map hook_runs (fire_hooks server_start f.registry).0)))
