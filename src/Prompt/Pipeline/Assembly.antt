-- ===== src/Prompt/Pipeline/Assembly.antt =====
-- internal/hivemind/service/agents/domain/service/runtime/prompt/pipeline.go: what a prompt holds, and in which order.
use mathlib.Core.List.{Perm}
use mathlib.Core.List.Perm
use mathlib.Core.List.{append-nil}
use echoryn.Prelude.{
  Text, codes, is_empty, ℤ, int_ltb, true, false, ◌≡◌, refl, inl, inr, List, [], ◌∷◌, ◌++◌, none,
  some, length, ◌==◌, Ascending, IsSort, Bool-cases, Option-cases, arith, pos,
}
use echoryn.Prompt.Types.{
  PromptMode, mode_full, mode_minimal, mode_none, mode_other, PromptContext, PromptSection,
}
use echoryn.Prompt.Workspace.{sections}
use echoryn.Prompt.Pipeline.{
  Pipeline, Sorting, ensure_sorted, all_sections, priority_threshold, piece, written, trim_newlines,
  mutated, assemble, PromptMode,
}

abbrev pub priority_of : PromptSection → ℤ
priority_of s = s.priority

-- A section with the text that it adds.
abbrev pub Part : Type 0
Part = PromptSection × Text

-- The greatest priority of a section in each mode.
abbrev pub limit : PromptMode → ℤ
limit mode_none = pos 100
limit mode_minimal = pos 500
limit mode_full = pos 999999
limit (mode_other m) = pos 999999

priority_threshold_lem : (m : PromptMode) → priority_threshold m ≡ limit m
priority_threshold_lem mode_none = refl
priority_threshold_lem mode_minimal = refl
priority_threshold_lem mode_full = refl
priority_threshold_lem (mode_other m) = refl

-- The section may stand in the prompt: its priority is within the limit of the mode, it is enabled,
-- and it renders a text that is not empty.
pub record Adds (pc : PromptContext) (s : PromptSection) (text : Text) : Type 0 where
  pub within : int_ltb (limit pc.mode) s.priority ≡ false
  pub enabled : s.enabled pc ≡ true
  pub rendered : s.render pc ≡ some text
  pub full : is_empty text ≡ false

-- The sections that a pipeline is to show: its own and those of the workspace.
abbrev pub offered : Sorting → Pipeline → List PromptSection
offered order p = elim p.workspace_loader [
  | none ↦ p.sections
  | some wl ↦ p.sections ++ sections order.by_string wl
]

-- A pipeline that is marked as sorted is sorted.
abbrev pub IsMarked : Pipeline → Type 0
IsMarked p = p.sorted ≡ true → Ascending priority_of p.sections

-- The parts one after the other, each with an empty line after it.
abbrev pub laid_out : List Part → Text
laid_out [] = []
laid_out ((s, text) ∷ parts) = text ++ (codes "\n\n" ++ laid_out parts)

abbrev parts_of : PromptContext → List PromptSection → List Part
parts_of pc [] = []
parts_of pc (s ∷ ss) = elim (piece pc s) [
  | none ↦ parts_of pc ss
  | some text ↦ (s, text) ∷ parts_of pc ss
]

written-laid_out :
    (pc : PromptContext) (ss : List PromptSection) → written pc ss ≡ laid_out (parts_of pc ss)
unfolding written
written-laid_out pc [] = refl
written-laid_out pc (s ∷ ss) = elim (Option-cases (piece pc s)) [
  | inl e ↦ rw (written, parts_of, e) (written-laid_out pc ss)
  | inr (text, e) ↦ rw (written, parts_of, e, written-laid_out pc ss) refl
]

piece-Adds :
    (pc : PromptContext) (s : PromptSection) (text : Text) → piece pc s ≡ some text → Adds pc s text
unfolding piece
piece-Adds pc s text h = elim (Bool-cases (int_ltb (priority_threshold pc.mode) s.priority)) [
  | inl above ↦ let bad = rw (piece, above) at h in absurd cc
  | inr within ↦ elim (Bool-cases (s.enabled pc)) [
    | inr off ↦ let bad = rw (piece, within, off) at h in absurd cc
    | inl on ↦ elim (Option-cases (s.render pc)) [
      | inl failed ↦ let bad = rw (piece, within, on, failed) at h in absurd cc
      | inr (found, e) ↦ elim (Bool-cases (is_empty found)) [
        | inl nothing ↦ let bad = rw (piece, within, on, e, nothing) at h in absurd cc
        | inr full ↦
            let it : some found ≡ some text = rw (piece, within, on, e, full) at h in
            let same : found ≡ text = cc in
            record {
              within = rw (← priority_threshold_lem pc.mode) within;
              enabled = on;
              rendered = rw (← same) e;
              full = rw (← same) full;
            }
      ]
    ]
  ]
]

Adds-piece :
    (pc : PromptContext) (s : PromptSection) (text : Text) → Adds pc s text → piece pc s ≡ some text
unfolding piece
Adds-piece pc s text a =
    rw (piece, priority_threshold_lem pc.mode, a.within, a.enabled, a.rendered, a.full) refl

-- The parts of a list of sections: one for each section that adds a text, in order, and none for another.
pub data IsPicked (pc : PromptContext) : List PromptSection → List Part → Type 0 where
  none_left : IsPicked pc [] []
  takes :
      {s : PromptSection} {text : Text} {ss : List PromptSection} {parts : List Part}
      → Adds pc s text
      → IsPicked pc ss parts
      → IsPicked pc (s ∷ ss) ((s, text) ∷ parts)
  leaves :
      {s : PromptSection} {ss : List PromptSection} {parts : List Part}
      → ((text : Text) → ¬ Adds pc s text)
      → IsPicked pc ss parts
      → IsPicked pc (s ∷ ss) parts

parts_of-IsPicked : (pc : PromptContext) (ss : List PromptSection) → IsPicked pc ss (parts_of pc ss)
parts_of-IsPicked pc [] = none_left
parts_of-IsPicked pc (s ∷ ss) = elim (Option-cases (piece pc s)) [
  | inl e ↦
      rw (parts_of, e)
        (leaves (λ text a. let found = Adds-piece pc s text a in cc) (parts_of-IsPicked pc ss))
  | inr (text, e) ↦ rw (parts_of, e) (takes (piece-Adds pc s text e) (parts_of-IsPicked pc ss))
]

-- What a sort by priority leaves in a pipeline.
module _ (order : Sorting) (sorts : IsSort priority_of order.by_section) where
  ensure_sorted-Perm : (p : Pipeline) → Perm (ensure_sorted order p).sections p.sections
  unfolding ensure_sorted
  ensure_sorted-Perm p = elim (Bool-cases p.sorted) [
    | inl done ↦ rw (ensure_sorted, done) (Perm.refl p.sections)
    | inr fresh ↦ rw (ensure_sorted, fresh) (sorts.permutes p.sections)
  ]

  ensure_sorted-IsMarked :
      (p : Pipeline) → IsMarked p → Ascending priority_of (ensure_sorted order p).sections
  unfolding ensure_sorted
  ensure_sorted-IsMarked p m = elim (Bool-cases p.sorted) [
    | inl done ↦ rw (ensure_sorted, done) (m done)
    | inr fresh ↦ rw (ensure_sorted, fresh) (sorts.ascends p.sections)
  ]

  ensure_sorted_loader :
      (p : Pipeline) → (ensure_sorted order p).workspace_loader ≡ p.workspace_loader
  unfolding ensure_sorted
  ensure_sorted_loader p = elim (Bool-cases p.sorted) [
    | inl done ↦ rw (ensure_sorted, done) refl
    | inr fresh ↦ rw (ensure_sorted, fresh) refl
  ]

  -- The sections to show are those offered, each once, in ascending order.
  all_sections_lem :
      (p : Pipeline)
      → IsMarked p
      → Perm (all_sections order (ensure_sorted order p)) (offered order p)
        × Ascending priority_of (all_sections order (ensure_sorted order p))
  unfolding all_sections
  all_sections_lem p m = elim (Option-cases p.workspace_loader) [
    | inl alone ↦
        rw (all_sections, ensure_sorted_loader p, offered, alone)
          (ensure_sorted-Perm p, ensure_sorted-IsMarked p m)
    | inr (wl, there) ↦ elim (Bool-cases (length (sections order.by_string wl) == 0)) [
      | inl none_found ↦
          let nothing : sections order.by_string wl ≡ [] = grind arith in
          rw (all_sections, ensure_sorted_loader p, offered, there, none_found, nothing)
            (rw (append-nil p.sections) (ensure_sorted-Perm p), ensure_sorted-IsMarked p m)
      | inr some_found ↦
          rw (all_sections, ensure_sorted_loader p, offered, there, some_found)
            (
              Perm.trans (sorts.permutes _)
                  (Perm.append_right (sections order.by_string wl) (ensure_sorted-Perm p)),
              sorts.ascends _,
            )
    ]
  ]

  -- Where the sort by priority is one, and a pipeline marked as sorted is sorted, the text of Assemble before
  -- the mutators is made of the sections of the pipeline and of its workspace, each once, in ascending order of
  -- their priorities. It has, in this order, a part for each section that is within the limit of the mode, enabled,
  -- and rendered to a text that is not empty, and none for another; a part is the text and an empty line, and the
  -- line feeds at the end are cut.
  pub assemble_correct :
      (pc : PromptContext) (p : Pipeline)
      → IsMarked p
      → (shown : List PromptSection) × (parts : List Part) × Perm shown (offered order p)
        × Ascending priority_of shown
        × IsPicked pc shown parts
        × ((assemble order pc p).0
            ≡ mutated pc (assemble order pc p).1.mutators (trim_newlines (laid_out parts)))
        × IsMarked (assemble order pc p).1
  unfolding assemble
  assemble_correct pc p m =
      let shown = all_sections order (ensure_sorted order p) in
      let (same, ascends) = all_sections_lem p m in
      (
        shown,
        parts_of pc shown,
        same,
        ascends,
        parts_of-IsPicked pc shown,
        rw (written-laid_out pc shown) refl,
        λ e. ensure_sorted-IsMarked p m,
      )
