-- ===== src/Prompt/Pipeline.antt =====
-- internal/hivemind/service/agents/domain/service/runtime/prompt/pipeline.go: the assembly of the system prompt.
-- The three uses of package sort are an argument.
pub mod Assembly
use echoryn.Prelude.{
  Text, codes, is_empty, ℤ, pos, int_ltb, Bool, true, false, ◌&&◌, List, [], ◌∷◌, ◌++◌, Option,
  none, some, length, ◌==◌, ℕ, if◌then◌else◌,
}
use echoryn.Prompt.Types.{
  PromptMode, mode_full, mode_minimal, mode_none, mode_other, PromptContext, PromptSection,
  PromptMutator,
}
use echoryn.Prompt.Workspace.{WorkspaceLoader, sections}

pub record Pipeline : Type 0 where
  pub sections : List PromptSection
  pub mutators : List PromptMutator
  pub sorted : Bool
  pub workspace_loader : Option WorkspaceLoader

-- sort.Slice by priority, for sections and for mutators, and sort.Strings.
pub record Sorting : Type 0 where
  pub by_section : List PromptSection → List PromptSection
  pub by_mutator : List PromptMutator → List PromptMutator
  pub by_string : List Text → List Text

abbrev pub new_pipeline : Pipeline
new_pipeline = record { sections = []; mutators = []; sorted = false; workspace_loader = none }

unfoldable pub register_section : PromptSection → Pipeline → Pipeline
register_section s p = record p { sections = p.sections ++ (s ∷ []); sorted = false }

unfoldable pub register_mutator : PromptMutator → Pipeline → Pipeline
register_mutator m p = record p { mutators = p.mutators ++ (m ∷ []); sorted = false }

abbrev pub set_workspace_loader : Option WorkspaceLoader → Pipeline → Pipeline
set_workspace_loader wl p = record p { workspace_loader = wl }

abbrev pub section_count : Pipeline → ℕ
section_count p = length p.sections

abbrev pub mutator_count : Pipeline → ℕ
mutator_count p = length p.mutators

unfoldable pub ensure_sorted : Sorting → Pipeline → Pipeline
ensure_sorted order p = if p.sorted then p else record p {
  sections = order.by_section p.sections;
  mutators = order.by_mutator p.mutators;
  sorted = true;
}

abbrev pub priority_threshold : PromptMode → ℤ
priority_threshold mode_none = pos 100
priority_threshold mode_minimal = pos 500
priority_threshold _ = pos 999999

-- The sections of the pipeline with those of the workspace.
unfoldable pub all_sections : Sorting → Pipeline → List PromptSection
unfolding sections
all_sections order p = elim p.workspace_loader [
  | none ↦ p.sections
  | some wl ↦
      let found = sections order.by_string wl in
      if length found == 0 then p.sections else order.by_section (p.sections ++ found)
]

-- What a section adds: nothing above the threshold, when it is disabled, fails, or is empty.
unfoldable pub piece : PromptContext → PromptSection → Option Text
piece pc s =
    if int_ltb (priority_threshold pc.mode) s.priority
    then none
    else if s.enabled pc
    then elim (s.render pc) [ none ↦ none | some text ↦ if is_empty text then none else some text ]
    else none

-- The loop over the sections.
unfoldable pub written : PromptContext → List PromptSection → Text
unfolding piece
written pc [] = []
written pc (s ∷ ss) = elim (piece pc s) [
  | none ↦ written pc ss
  | some text ↦ text ++ (codes "\n\n" ++ written pc ss)
]

-- strings.TrimRight of line feeds.
unfoldable pub trim_newlines : Text → Text
trim_newlines [] = []
trim_newlines (c ∷ cs) =
    let rest = trim_newlines cs in if c == b'\n' && is_empty rest then [] else c ∷ rest

-- The chain of mutators; one that fails changes nothing.
unfoldable pub mutated : PromptContext → List PromptMutator → Text → Text
mutated pc [] result = result
mutated pc (m ∷ ms) result = elim (m.mutate pc result) [
  | none ↦ mutated pc ms result
  | some text ↦ mutated pc ms text
]

unfoldable pub assemble : Sorting → PromptContext → Pipeline → Text × Pipeline
unfolding ensure_sorted all_sections written trim_newlines mutated
assemble order pc p =
    let p' = ensure_sorted order p in
    (mutated pc p'.mutators (trim_newlines (written pc (all_sections order p'))), p')
