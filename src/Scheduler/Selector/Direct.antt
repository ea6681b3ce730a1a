-- ===== src/Scheduler/Selector/Direct.antt =====
-- internal/hivemind/service/scheduler/selector.go: what DirectSelector chooses.
use echoryn.Prelude.{
  Text, same, same_iff, same_self, is_empty, ℕ, ◌≡◌, refl, sym, ap, false, List, [], ◌∷◌, ◌++◌, All,
  some, arith, Bool-cases, Option-cases, inl, inr, ◌↔◌, length,
}
use echoryn.Scheduler.Types.{ScheduleRequest, GolemProfile}
use echoryn.Scheduler.Selector.{
  check, find_target, direct_select, ScheduleDecision, Selection, chosen, refused,
}
use echoryn.Scheduler.Selector.Constraints.{IsEligible, check_iff}

-- `c` is the first candidate with the id.
abbrev pub IsFirst : Text → List GolemProfile → GolemProfile → Type 0
IsFirst id candidates c =
    (before : List GolemProfile) × (after : List GolemProfile) × (candidates
      ≡ before ++ (c ∷ after))
    × All (λ b. same b.node_info.id id ≡ false) before
    × (c.node_info.id ≡ id)

find_target_sound :
    (id : Text) (candidates : List GolemProfile) (c : GolemProfile)
    → find_target id candidates ≡ some c
    → IsFirst id candidates c
unfolding find_target
find_target_sound id [] c e = cc
find_target_sound id (b ∷ candidates) c e = elim (Bool-cases (same b.node_info.id id)) [
  | inl found ↦
      let it : b ≡ c = grind (arith, found, e) in
      ([], candidates, rw it refl, tt, rw it at ((same_iff _ _).0 found))
  | inr other ↦
      let (before, after, split, skipped, named) =
        find_target_sound id candidates c (rw other at e) in
      (b ∷ before, after, ap (◌∷◌ b) split, (other, skipped), named)
]

find_target_complete :
    (id : Text) (before after : List GolemProfile) (c : GolemProfile)
    → All (λ b. same b.node_info.id id ≡ false) before
    → c.node_info.id ≡ id
    → find_target id (before ++ (c ∷ after)) ≡ some c
unfolding find_target
find_target_complete id [] after c h e = rw (e, same_self id) refl
find_target_complete id (b ∷ before) after c h e =
    rw h.0 (find_target_complete id before after c h.1 e)

selected : Selection → Text
selected (chosen d) = d.selected_node_id
selected (refused e) = []

pub direct_select_sound :
    (start now : ℕ) (req : ScheduleRequest) (candidates : List GolemProfile) (d : ScheduleDecision)
    → direct_select start now req candidates ≡ chosen d
    → (is_empty req.target_node_id ≡ false)
      × (c : GolemProfile) × IsFirst req.target_node_id candidates c
      × IsEligible req c
      × (d.selected_node_id ≡ c.node_info.id)
unfolding direct_select selected
direct_select_sound start now req candidates d run =
    elim (Bool-cases (is_empty req.target_node_id)) [
      | inl nameless ↦ cc (rw (direct_select, nameless) at run)
      | inr named ↦ elim (Option-cases (find_target req.target_node_id candidates)) [
        | inl missing ↦ cc (rw (direct_select, named, missing) at run)
        | inr (c, found) ↦ elim (Option-cases (check req c)) [
          | inl fits ↦ (
            named,
            c,
            find_target_sound req.target_node_id candidates c found,
            (check_iff req c).0 fits,
            sym (ap selected (rw (direct_select, named, found, fits) at run)),
          )
          | inr (reason, rejected) ↦ cc (rw (direct_select, named, found, rejected) at run)
        ]
      ]
    ]

-- DirectSelector chooses a node exactly where the request names one, a candidate has that id, and the
-- first such candidate is eligible, for which its health score does not matter; the decision then selects that id
-- and counts all candidates.
pub direct_select_iff :
    (start now : ℕ) (req : ScheduleRequest) (candidates : List GolemProfile)
    → ((d : ScheduleDecision) × (direct_select start now req candidates ≡ chosen d)
        × (d.selected_node_id ≡ req.target_node_id)
        × (d.candidate_count ≡ length candidates))
      ↔ ((is_empty req.target_node_id ≡ false)
          × (c : GolemProfile) × IsFirst req.target_node_id candidates c
          × IsEligible req c)
unfolding direct_select
direct_select_iff start now req candidates = (
  λ (d, run, _, _).
      let (named, c, first, fits, picks) = direct_select_sound start now req candidates d run in
      (named, c, first, fits),
  λ (named, c, (before, after, split, skipped, same_id), fits).
      let found : find_target req.target_node_id candidates ≡ some c =
        rw split (find_target_complete req.target_node_id before after c skipped same_id) in
      rw (direct_select, named, found, (check_iff req c).1 fits) (_, refl, same_id, refl),
)
