-- ===== src/Scheduler/Selector/Layers.antt =====
-- internal/hivemind/service/scheduler/selector.go: selectors made of selectors.
use echoryn.Prelude.{
  codes, ℕ, ◌≡◌, refl, sym, Bool, true, List, [], ◌∷◌, ◌++◌, ap, All, all, some, none, length,
  get_elem?, ◌↔◌, Option, inl, inr, Bool-cases, ◌⊎◌,
}
use echoryn.Scheduler.Types.{ScheduleRequest, GolemProfile}
use echoryn.Scheduler.Selector.{
  direct_select, composite_loop, composite_select, composite_selector, ScheduleDecision,
  SelectError, Selection, chosen, refused, NodeSelector,
}
use echoryn.Scheduler.Selector.Constraints.{IsEligible}
use echoryn.Scheduler.Selector.Direct.{direct_select_sound}

module _ (req : ScheduleRequest) (candidates : List GolemProfile) where
  -- `s` is the first selector that does not refuse, and it decides `d`.
  abbrev pub DecidedBy : List NodeSelector → NodeSelector → ScheduleDecision → Type 0
  DecidedBy selectors s d =
      (before : List NodeSelector) × (after : List NodeSelector) × (selectors
        ≡ before ++ (s ∷ after))
      × All (λ b. (e : SelectError) × (b.select req candidates ≡ refused e)) before
      × (s.select req candidates ≡ chosen d)

  Selection-cases :
      (r : Selection)
      → ((d : ScheduleDecision) × (r ≡ chosen d)) ⊎ ((e : SelectError) × (r ≡ refused e))
  Selection-cases (chosen d) = inl (d, refl)
  Selection-cases (refused e) = inr (e, refl)

  composite_loop_sound :
      (n : ℕ) (selectors : List NodeSelector) (last_err : Option SelectError) (d : ScheduleDecision)
      → composite_loop n selectors last_err req candidates ≡ chosen d
      → (s : NodeSelector) × DecidedBy selectors s d
  unfolding composite_loop
  composite_loop_sound n [] last_err d run = cc
  composite_loop_sound n (s ∷ selectors) last_err d run =
      elim (Selection-cases (s.select req candidates)) [
        | inl (d', picks) ↦
            let same : chosen d' ≡ chosen d = rw (composite_loop, picks) at run in
            (s, ([], selectors, refl, tt, rw picks same))
        | inr (e, refuses) ↦
            let (t, (before, after, split, skipped, picks)) =
              composite_loop_sound n selectors (some e) d (rw (composite_loop, refuses) at run) in
            (t, (s ∷ before, after, ap (◌∷◌ s) split, ((e, refuses), skipped), picks))
      ]

  composite_loop_complete :
      (n : ℕ) (before after : List NodeSelector) (s : NodeSelector) (last_err : Option SelectError)
      (d : ScheduleDecision)
      → All (λ b. (e : SelectError) × (b.select req candidates ≡ refused e)) before
      → s.select req candidates ≡ chosen d
      → composite_loop n (before ++ (s ∷ after)) last_err req candidates ≡ chosen d
  unfolding composite_loop
  composite_loop_complete n [] after s last_err d h picks = rw (composite_loop, picks) refl
  composite_loop_complete n (b ∷ before) after s last_err d h picks =
      let (e, refuses) = h.0 in
      rw (composite_loop, refuses) (composite_loop_complete n before after s (some e) d h.1 picks)

  -- CompositeSelector makes a decision exactly where it is that of the first selector that does not
  -- refuse.
  pub composite_select_iff :
      (selectors : List NodeSelector) (d : ScheduleDecision)
      → (composite_select selectors req candidates ≡ chosen d)
        ↔ ((s : NodeSelector) × DecidedBy selectors s d)
  unfolding composite_select
  composite_select_iff selectors d = (
    composite_loop_sound (length selectors) selectors none d,
    λ (s, (before, after, split, skipped, picks)). rw (sym split) at (
        composite_loop_complete (length (before ++ (s ∷ after))) before after s none d skipped
          picks),
  )

-- The selector only decides for eligible candidates that it was given.
abbrev pub Picks : ScheduleRequest → List GolemProfile → ScheduleDecision → GolemProfile → Type 0
Picks req candidates d c =
    (i : ℕ) × (get_elem? candidates i ≡ some c)
    × (c.node_info.id ≡ d.selected_node_id)
    × IsEligible req c

abbrev pub IsSound : NodeSelector → Type 0
IsSound s =
    (req : ScheduleRequest) (candidates : List GolemProfile) (d : ScheduleDecision)
    → s.select req candidates ≡ chosen d
    → (c : GolemProfile) × Picks req candidates d c

all_sound :
    (fs : List (GolemProfile → Bool)) (c : GolemProfile)
    → all (λ f. f c) fs ≡ true
    → All (λ f. f c ≡ true) fs
all_sound [] c h = tt
all_sound (f ∷ fs) c h = elim (Bool-cases (f c)) [
  | inl passes ↦ (passes, all_sound fs c (rw passes at h))
  | inr fails ↦ cc (rw fails at h)
]

-- A chain of sound selectors is sound.
pub composite_selector-IsSound :
    (selectors : List NodeSelector) → All IsSound selectors → IsSound (composite_selector selectors)
unfolding composite_selector
composite_selector-IsSound selectors sound req candidates d run =
    let (s, (before, after, split, skipped, picks)) =
      (composite_select_iff req candidates selectors d).0 run in
    middle before s after (rw split at sound) req candidates d picks
  where
    middle :
        (before : List NodeSelector) (s : NodeSelector) (after : List NodeSelector)
        → All IsSound (before ++ (s ∷ after))
        → IsSound s
    middle [] s after h = h.0
    middle (b ∷ before) s after h = middle before s after h.1

-- The selector of the direct mode.
abbrev pub direct_selector : ℕ → ℕ → NodeSelector
direct_selector start now = record { name = codes "direct"; select = direct_select start now }

pub direct_selector-IsSound : (start now : ℕ) → IsSound (direct_selector start now)
direct_selector-IsSound start now req candidates d run =
    let (named, c, (before, after, split, skipped, at_id), fits, picks) =
      direct_select_sound start now req candidates d run in
    (c, (length before, rw split (at_middle before c after), sym picks, fits))
  where
    at_middle :
        (before : List GolemProfile) (c : GolemProfile) (after : List GolemProfile)
        → get_elem? (before ++ (c ∷ after)) (length before) ≡ some c
    at_middle [] c after = refl
    at_middle (b ∷ before) c after = at_middle before c after
