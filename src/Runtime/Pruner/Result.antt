-- ===== src/Runtime/Pruner/Result.antt =====
-- internal/hivemind/service/agents/domain/service/runtime/context_pruner.go: what Prune returns.
use echoryn.Prelude.{
  Text, length, take, drop, map, ℕ, zero, suc, ◌<◌, ◌≡◌, ◌++◌, refl, sym, ap, ◌∙◌, true, false, All,
  ◌||◌, List, [], ◌∷◌, ltb→lt, ◌==◌, arith, Bool-cases, inl, inr, has_prefix, has_prefix-append,
}
use mathlib.Core.Path.{subst}
use mathlib.Core.List.{append-nil}
use echoryn.Runtime.Message.{SchemaMessage}
use echoryn.Runtime.Tokens.{estimate_messages}
use echoryn.Runtime.Pruner.{
  PrunerConfig, ContextPruner, PruneResult, is_tool, soft_trims, apply_soft_trim, placeholder,
  hard_clears, apply_hard_clear, find_protection_boundary, exceeds, hard_stage, unpruned, prune,
  soft_trimmed_content,
}
use echoryn.Runtime.Pruner.Stages.{soft_trim, hard_clear, apply_soft_trim-map, apply_hard_clear-map}

-- One message for each, with another content at most, and only in a tool result.
abbrev pub Pruned : List SchemaMessage → List SchemaMessage → Type 0
Pruned [] [] = Unit {0}
Pruned [] (o ∷ os) = ⊥
Pruned (m ∷ ms) [] = ⊥
Pruned (m ∷ ms) (o ∷ os) =
    ((c : Text) × (o ≡ record m { content = c })) × (is_tool m ≡ false → o ≡ m) × Pruned ms os

Pruned-refl : (ms : List SchemaMessage) → Pruned ms ms
Pruned-refl [] = tt
Pruned-refl (m ∷ ms) = ((m.content, refl), (λ h. refl), Pruned-refl ms)

-- A stage, as a map over the first messages.
abbrev stage : (SchemaMessage → SchemaMessage) → ℕ → List SchemaMessage → List SchemaMessage
stage f n ms = map f (take n ms) ++ drop n ms

-- A stage changes contents of tool results only.
abbrev IsStage : (SchemaMessage → SchemaMessage) → Type 0
IsStage f =
    (m : SchemaMessage)
    → ((c : Text) × (f m ≡ record m { content = c })) × (is_tool m ≡ false → f m ≡ m)

soft_trim-IsStage : (c : PrunerConfig) → IsStage (soft_trim c)
unfolding soft_trims
soft_trim-IsStage c m = elim (Bool-cases (soft_trims c m)) [
  | inl e ↦ ((soft_trimmed_content c m.content, rw e), λ h. ground arith)
  | inr e ↦ ((m.content, rw e), λ h. rw e)
]

hard_clear-IsStage : IsStage hard_clear
unfolding hard_clears
hard_clear-IsStage m = elim (Bool-cases (hard_clears m)) [
  | inl e ↦ ((placeholder, rw e), λ h. ground arith)
  | inr e ↦ ((m.content, rw e), λ h. rw e)
]

stage-Pruned :
    (f : SchemaMessage → SchemaMessage) (n : ℕ) (ms : List SchemaMessage)
    → IsStage f
    → Pruned ms (stage f n ms)
stage-Pruned f zero ms h = Pruned-refl ms
stage-Pruned f (suc n) [] h = tt
stage-Pruned f (suc n) (m ∷ ms) h = ((h m).0, (h m).1, stage-Pruned f n ms h)

stage-drop :
    (f : SchemaMessage → SchemaMessage) (n : ℕ) (ms : List SchemaMessage)
    → drop n (stage f n ms) ≡ drop n ms
stage-drop f zero ms = refl
stage-drop f (suc n) [] = refl
stage-drop f (suc n) (m ∷ ms) = stage-drop f n ms

-- Both stages with one boundary are one.
stage-stage :
    (f g : SchemaMessage → SchemaMessage) (n : ℕ) (ms : List SchemaMessage)
    → stage g n (stage f n ms) ≡ stage (λ m. g (f m)) n ms
stage-stage f g zero ms = refl
stage-stage f g (suc n) [] = refl
stage-stage f g (suc n) (m ∷ ms) = ap (◌∷◌ (g (f m))) (stage-stage f g n ms)

compose-IsStage :
    (f g : SchemaMessage → SchemaMessage) → IsStage f → IsStage g → IsStage (λ m. g (f m))
compose-IsStage f g hf hg m = (
  (
    (hg (f m)).0.0,
    (hg (f m)).0.1 ∙ ap (λ (x : SchemaMessage). record x { content = (hg (f m)).0.0 }) (hf m).0.1,
  ),
  λ h. ap g ((hf m).1 h) ∙ (hg m).1 h,
)

-- What Prune may return: the messages as they are, trimmed, or trimmed and cleared, up to the
-- boundary.
abbrev Variant : ContextPruner → List SchemaMessage → List SchemaMessage → Type 0
Variant p ms out =
    let b = find_protection_boundary p.config.keep_last_assistants ms in
    (f : SchemaMessage → SchemaMessage) × IsStage f × (out ≡ stage f b ms)

module _ (p : ContextPruner) (ms : List SchemaMessage) (usable : ℕ) where
  abbrev boundary : ℕ
  boundary = find_protection_boundary p.config.keep_last_assistants ms

  abbrev trimmed : List SchemaMessage
  trimmed = (apply_soft_trim p.config ms boundary).0

  abbrev cleared : List SchemaMessage
  cleared = (apply_hard_clear trimmed boundary).0

  trimmed-Variant : Variant p ms trimmed
  trimmed-Variant =
      (soft_trim p.config, soft_trim-IsStage p.config, (apply_soft_trim-map p.config ms boundary).0)

  cleared-Variant : Variant p ms cleared
  cleared-Variant = (
    λ m. hard_clear (soft_trim p.config m),
    compose-IsStage (soft_trim p.config) hard_clear (soft_trim-IsStage p.config) hard_clear-IsStage,
    (apply_hard_clear-map trimmed boundary).0
        ∙ ap (stage hard_clear boundary) (apply_soft_trim-map p.config ms boundary).0
        ∙ stage-stage (soft_trim p.config) hard_clear boundary ms,
  )

  same-Variant : Variant p ms ms
  same-Variant = (λ m. m, (λ m. ((m.content, refl), λ h. refl)), whole boundary ms)
    where
      whole : (n : ℕ) (ms : List SchemaMessage) → ms ≡ stage (λ m. m) n ms
      whole zero ms = refl
      whole (suc n) [] = refl
      whole (suc n) (m ∷ ms) = ap (◌∷◌ m) (whole n ms)

  Variant-Pruned :
      (out : List SchemaMessage)
      → Variant p ms out
      → Pruned ms out × (drop boundary out ≡ drop boundary ms)
  Variant-Pruned out (f, h, e) = (
    subst (Pruned ms) (sym e) (stage-Pruned f boundary ms h),
    ap (drop boundary) e ∙ stage-drop f boundary ms,
  )

  abbrev Sound : PruneResult → Type 0
  Sound r =
      (Pruned ms r.messages × (drop boundary r.messages ≡ drop boundary ms))
      × (r.estimated_tokens ≡ estimate_messages p.estimator r.messages)

  hard_stage-Sound : Sound (hard_stage p usable boundary (apply_soft_trim p.config ms boundary))
  unfolding hard_stage
  hard_stage-Sound =
      elim (Bool-cases
        (exceeds (estimate_messages p.estimator trimmed) usable p.config.hard_clear_ratio)) [
          | inl e ↦ rw e (Variant-Pruned cleared cleared-Variant, refl)
          | inr e ↦ rw e (Variant-Pruned trimmed trimmed-Variant, refl)
        ]

  unpruned-Sound : Sound (unpruned p ms)
  unpruned-Sound = (Variant-Pruned ms same-Variant, refl)

-- Prune returns one message for each, in order, with another content at most and only where it is a
-- tool result; the protected messages stay as they are, and the reported estimate is that of the
-- messages returned.
pub prune_sound :
    (p : ContextPruner) (ms : List SchemaMessage) (usable : ℕ)
    → let r = prune p ms usable in
      let b = find_protection_boundary p.config.keep_last_assistants ms in
      (Pruned ms r.messages × (drop b r.messages ≡ drop b ms))
      × (r.estimated_tokens ≡ estimate_messages p.estimator r.messages)
unfolding prune
prune_sound p ms usable = elim (Bool-cases (usable == 0 || length ms == 0)) [
  | inl e ↦ rw e (unpruned-Sound p ms usable)
  | inr e ↦
      rw e
        (elim (Bool-cases
          (exceeds (estimate_messages p.estimator ms) usable p.config.soft_trim_ratio)) [
            | inl x ↦ rw x (hard_stage-Sound p ms usable)
            | inr x ↦ rw x (unpruned-Sound p ms usable)
          ])
]

-- A tool result whose content is gone.
abbrev pub IsCleared : SchemaMessage → Type 0
IsCleared m = is_tool m ≡ true → has_prefix placeholder m.content ≡ true

hard_clear-IsCleared : (m : SchemaMessage) → IsCleared (hard_clear m)
unfolding hard_clears is_tool
hard_clear-IsCleared m = elim (Bool-cases (hard_clears m)) [
  | inl e ↦ rw e (λ h. rw (append-nil placeholder) at (has_prefix-append placeholder []))
  | inr e ↦ rw e (λ h. ground arith)
]

stage-IsCleared : (n : ℕ) (ms : List SchemaMessage) → All IsCleared (take n (stage hard_clear n ms))
stage-IsCleared zero ms = tt
stage-IsCleared (suc n) [] = tt
stage-IsCleared (suc n) (m ∷ ms) = (hard_clear-IsCleared m, stage-IsCleared n ms)

prune-hard_stage :
    (p : ContextPruner) (ms : List SchemaMessage) (usable : ℕ)
    → 0 < usable
    → exceeds (estimate_messages p.estimator ms) usable p.config.soft_trim_ratio ≡ true
    → prune p ms usable
      ≡ hard_stage p usable
          (boundary p ms usable)
          (apply_soft_trim p.config ms (boundary p ms usable))
unfolding prune estimate_messages
prune-hard_stage p [] usable u s = absurd (omega (arith, ltb→lt _ _ s))
prune-hard_stage p (m ∷ ms) usable u s =
    let running : (usable == 0 || length (m ∷ ms) == 0) ≡ false = ground arith in
    rw running (rw s refl)

hard_stage-IsCleared :
    (p : ContextPruner) (ms : List SchemaMessage) (usable : ℕ)
    → let r =
        hard_stage p usable
          (boundary p ms usable)
          (apply_soft_trim p.config ms (boundary p ms usable)) in
      exceeds r.estimated_tokens usable p.config.hard_clear_ratio ≡ true
      → All IsCleared (take (boundary p ms usable) r.messages)
unfolding hard_stage
hard_stage-IsCleared p ms usable h =
    let b = boundary p ms usable in
    elim (Bool-cases (
      exceeds (estimate_messages p.estimator (trimmed p ms usable)) usable
        p.config.hard_clear_ratio)) [
          | inl e ↦ rw e (
              rw ((apply_hard_clear-map (trimmed p ms usable) b).0)
                (stage-IsCleared b (trimmed p ms usable)))
          | inr e ↦ cc (e, rw e at h)
        ]

-- Where Prune starts to trim and what it returns still exceeds the hard ratio, every tool result
-- before the protected messages has been cleared: nothing more could be given up.
pub prune_exhausts :
    (p : ContextPruner) (ms : List SchemaMessage) (usable : ℕ)
    → 0 < usable
    → exceeds (estimate_messages p.estimator ms) usable p.config.soft_trim_ratio ≡ true
    → exceeds (prune p ms usable).estimated_tokens usable p.config.hard_clear_ratio ≡ true
    → All IsCleared (
        take
          (find_protection_boundary p.config.keep_last_assistants ms)
          (prune p ms usable).messages)
prune_exhausts p ms usable u s h =
    let e = prune-hard_stage p ms usable u s in rw e (hard_stage-IsCleared p ms usable (rw e at h))
