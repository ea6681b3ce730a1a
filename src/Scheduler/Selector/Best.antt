-- ===== src/Scheduler/Selector/Best.antt =====
-- internal/hivemind/service/scheduler/selector.go: what AISelector chooses.
use echoryn.Prelude.{
  int_ltb, ℤ, pos, negsuc, List-cases, get_elem?-lt, sym, ◌∙◌, ℕ, zero, suc, ◌<◌, ◌≡◌, refl, Bool,
  true, false, List, [], ◌∷◌, map, keep, some, length, get_elem?, arith, ◌==◌, Bool-cases,
  Option-cases, inl, inr, ◌⊎◌, ◌↔◌,
}
use echoryn.Scheduler.Types.{ScheduleRequest, GolemProfile, Float64}
use echoryn.Scheduler.Selector.{
  check, NodeScore, Scoring, score, checked_score, ai_select, ScheduleDecision, SelectError, chosen,
  refused, no_candidates, no_eligible,
}
use echoryn.Scheduler.Selector.Constraints.{IsEligible, check_iff}

abbrev pub total : Scoring → ScheduleRequest → GolemProfile → Float64
total s req c =
    s.weighted (s.capabilities req c) (s.skills req c) (s.resources req c) (s.load c) (s.tags req c)
      (s.affinity req c)

-- What sort.Slice promises: the entries are kept, and no later one has a greater score.
pub record SortsScores (sort : List NodeScore → List NodeScore) : Type 0 where
  pub kept :
      (xs : List NodeScore) (i : ℕ) (x : NodeScore)
      → get_elem? (sort xs) i ≡ some x
      → (j : ℕ) × (get_elem? xs j ≡ some x)
  pub held :
      (xs : List NodeScore) (j : ℕ) (x : NodeScore)
      → get_elem? xs j ≡ some x
      → (i : ℕ) × (get_elem? (sort xs) i ≡ some x)
  pub descending :
      (xs : List NodeScore) (i j : ℕ) (x y : NodeScore)
      → get_elem? (sort xs) i ≡ some x
      → get_elem? (sort xs) j ≡ some y
      → i < j
      → int_ltb x.total_score y.total_score ≡ false

module _ {ℓ} {A : Type ℓ} where
  pub keep_sound :
      (p : A → Bool) (xs : List A) (i : ℕ) (x : A)
      → get_elem? (keep p xs) i ≡ some x
      → (j : ℕ) × (get_elem? xs j ≡ some x) × (p x ≡ true)
  keep_sound p [] i x e = cc
  keep_sound p (y ∷ xs) i x e = elim (Bool-cases (p y)) [
    | inl passes ↦ here i (rw passes at e) passes (λ k. keep_sound p xs k x)
    | inr fails ↦ let (j, k, h) = keep_sound p xs i x (rw fails at e) in (suc j, k, h)
  ]
    where
      here :
          (i : ℕ)
          → get_elem? (y ∷ keep p xs) i ≡ some x
          → p y ≡ true
          → ((k : ℕ)
              → get_elem? (keep p xs) k ≡ some x
              → (j : ℕ) × (get_elem? xs j ≡ some x) × (p x ≡ true))
          → (j : ℕ) × (get_elem? (y ∷ xs) j ≡ some x) × (p x ≡ true)
      here zero e passes rest = let it : y ≡ x = grind arith in (0, e, rw it at passes)
      here (suc i) e passes rest = let (j, k, h) = rest i e in (suc j, k, h)

  keep_complete :
      (p : A → Bool) (xs : List A) (j : ℕ) (x : A)
      → get_elem? xs j ≡ some x
      → p x ≡ true
      → (i : ℕ) × (get_elem? (keep p xs) i ≡ some x)
  keep_complete p [] j x e h = cc
  keep_complete p (y ∷ xs) zero x e h = let it : y ≡ x = grind arith in rw (it, h) (0, refl)
  keep_complete p (y ∷ xs) (suc j) x e h =
      let (i, k) = keep_complete p xs j x e h in
      elim (Bool-cases (p y)) [ inl passes ↦ rw passes (suc i, k) | inr fails ↦ rw fails (i, k) ]

  map_sound {κ} :
      {B : Type κ} (f : A → B) (xs : List A) (i : ℕ) (y : B)
      → get_elem? (map f xs) i ≡ some y
      → (x : A) × (get_elem? xs i ≡ some x) × (f x ≡ y)
  map_sound f [] i y e = cc
  map_sound f (x ∷ xs) zero y e = (x, refl, grind arith)
  map_sound f (x ∷ xs) (suc i) y e = map_sound f xs i y e

  map_complete {κ} :
      {B : Type κ} (f : A → B) (xs : List A) (i : ℕ) (x : A)
      → get_elem? xs i ≡ some x
      → get_elem? (map f xs) i ≡ some (f x)
  map_complete f [] i x e = cc
  map_complete f (y ∷ xs) zero x e = let it : y ≡ x = grind arith in rw it refl
  map_complete f (y ∷ xs) (suc i) x e = map_complete f xs i x e

module _ (s : Scoring) (req : ScheduleRequest) where
  checked_score_lem :
      (c : GolemProfile)
      → ((checked_score s req c).eligible ≡ true ↔ IsEligible req c)
        × ((checked_score s req c).node_id ≡ c.node_info.id)
        × ((checked_score s req c).total_score ≡ total s req c)
  unfolding checked_score score
  checked_score_lem c = elim (Option-cases (check req c)) [
    | inl fits ↦ rw (checked_score, fits) ((λ h. (check_iff req c).0 fits, λ h. refl), refl, refl)
    | inr (reason, rejected) ↦
        rw (checked_score, rejected)
          ((λ h. cc, λ h. cc (rejected, (check_iff req c).1 h)), refl, refl)
  ]

  -- The candidate is eligible, and no eligible candidate has a greater score.
  pub record IsBest (candidates : List GolemProfile) (c : GolemProfile) : Type 0 where
    pub fits : IsEligible req c
    pub best :
        (j : ℕ) (c' : GolemProfile)
        → get_elem? candidates j ≡ some c'
        → IsEligible req c'
        → int_ltb (total s req c) (total s req c') ≡ false

  -- The eligible scores are those of the eligible candidates.
  abbrev eligible_scores : List GolemProfile → List NodeScore
  eligible_scores candidates = keep (λ ns. ns.eligible) (map (checked_score s req) candidates)

  eligible_scores_sound :
      (candidates : List GolemProfile) (i : ℕ) (x : NodeScore)
      → get_elem? (eligible_scores candidates) i ≡ some x
      → (j : ℕ) × (c : GolemProfile) × (get_elem? candidates j ≡ some c)
        × (checked_score s req c ≡ x)
        × IsEligible req c
  eligible_scores_sound candidates i x e =
      let (j, there, passes) =
        keep_sound (λ (ns : NodeScore). ns.eligible) (map (checked_score s req) candidates) i x e in
      let (c, found, scored) = map_sound (checked_score s req) candidates j x there in
      (j, c, found, scored, (checked_score_lem c).0.0 (rw (sym scored) at passes))

  eligible_scores_complete :
      (candidates : List GolemProfile) (j : ℕ) (c : GolemProfile)
      → get_elem? candidates j ≡ some c
      → IsEligible req c
      → (i : ℕ) × (get_elem? (eligible_scores candidates) i ≡ some (checked_score s req c))
  eligible_scores_complete candidates j c e h =
      keep_complete (λ (ns : NodeScore). ns.eligible) (map (checked_score s req) candidates) j
        (checked_score s req c) (map_complete (checked_score s req) candidates j c e)
        ((checked_score_lem c).0.1 h)

  module _ (sort : List NodeScore → List NodeScore) (sorts : SortsScores sort) where
    first-IsBest :
        (candidates : List GolemProfile) (x : NodeScore) (rest : List NodeScore)
        → sort (eligible_scores candidates) ≡ x ∷ rest
        → (i : ℕ) × (c : GolemProfile) × (get_elem? candidates i ≡ some c)
          × (c.node_info.id ≡ x.node_id)
          × IsBest candidates c
    first-IsBest candidates x rest e =
        let xs = eligible_scores candidates in
        let front : get_elem? (sort xs) 0 ≡ some x = rw e refl in
        let (k, there) = sorts.kept xs 0 x front in
        let (i, c, found, scored, fits) = eligible_scores_sound candidates k x there in
        let (_, named, summed) = checked_score_lem c in
        let score_of : x.total_score ≡ total s req c = rw scored at summed in
        (
          i,
          c,
          found,
          sym (rw scored at named),
          record {
            fits = fits;
            best = λ j c' e' h'.
                let (k', there') = eligible_scores_complete candidates j c' e' h' in
                let (m, placed) = sorts.held xs k' (checked_score s req c') there' in
                rw (score_of, (checked_score_lem c').2) at
                  (not_later xs x (checked_score s req c') m front placed);
          },
        )
      where
        int_irrefl : (a : ℤ) → int_ltb a a ≡ false
        int_irrefl (pos a) = ground arith
        int_irrefl (negsuc a) = ground arith

        not_later :
            (xs : List NodeScore) (x y : NodeScore) (m : ℕ)
            → get_elem? (sort xs) 0 ≡ some x
            → get_elem? (sort xs) m ≡ some y
            → int_ltb x.total_score y.total_score ≡ false
        not_later xs x y zero front placed =
            let it : x ≡ y = ground (arith, front, placed) in rw it (int_irrefl y.total_score)
        not_later xs x y (suc m) front placed =
            sorts.descending xs 0 (suc m) x y front placed (omega arith)

    -- With a sort that sorts, AISelector chooses an eligible candidate with the greatest score, and
    -- refuses only where no candidate is eligible.
    pub ai_select-IsBest :
        (start now : ℕ) (candidates : List GolemProfile)
        → ((d : ScheduleDecision) × (i : ℕ) × (c : GolemProfile) × (ai_select s sort start now req
                candidates
              ≡ chosen d)
            × (get_elem? candidates i ≡ some c)
            × (c.node_info.id ≡ d.selected_node_id)
            × IsBest candidates c)
          ⊎ ((e : SelectError) × (ai_select s sort start now req candidates ≡ refused e)
              × ((i : ℕ) (c : GolemProfile) → get_elem? candidates i ≡ some c → ¬ IsEligible req c))
    unfolding ai_select
    ai_select-IsBest start now candidates = elim (Bool-cases (length candidates == 0)) [
      | inl nobody ↦ inr (
        no_candidates,
        rw (ai_select, nobody) refl,
        λ i c e h. absurd (nobody_there candidates i c nobody e),
      )
      | inr some_there ↦ elim (List-cases (sort (eligible_scores candidates))) [
        | inl none_left ↦ inr (
          no_eligible (length candidates),
          rw (ai_select, some_there, none_left) refl,
          λ i c e h.
              let (k, there) = eligible_scores_complete candidates i c e h in
              let (m, placed) = sorts.held _ k _ there in cc (rw none_left at placed),
        )
        | inr (x, rest, e) ↦
            let (i, c, found, named, best) = first-IsBest candidates x rest e in
            let (d, run, picks) = chooses candidates x rest some_there e in
            inl (d, i, c, run, found, named ∙ sym picks, best)
      ]
    ]
      where
        chooses :
            (candidates : List GolemProfile) (x : NodeScore) (rest : List NodeScore)
            → (length candidates == 0) ≡ false
            → sort (eligible_scores candidates) ≡ x ∷ rest
            → (d : ScheduleDecision) × (ai_select s sort start now req candidates ≡ chosen d)
              × (d.selected_node_id ≡ x.node_id)
        chooses candidates x rest h e = rw (ai_select, h, e) (_, refl, refl)

        nobody_there :
            (candidates : List GolemProfile) (i : ℕ) (c : GolemProfile)
            → (length candidates == 0) ≡ true
            → get_elem? candidates i ≡ some c
            → ⊥
        nobody_there candidates i c h e = ground (arith, get_elem?-lt candidates i c e)
