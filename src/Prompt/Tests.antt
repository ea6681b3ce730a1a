-- ===== src/Prompt/Tests.antt =====
-- internal/hivemind/service/agents/domain/service/runtime/prompt: prompts of the model, and the theorem at a concrete input.
use mathlib.Core.List.{Perm}
use echoryn.Prelude.{
  codes, ◌≡◌, refl, List, [], ◌∷◌, ◌++◌, none, some, Ascending, sort_by, sort_by-IsSort, Bool,
}
use echoryn.Prompt.Types.{PromptContext, PromptSection, mode_minimal, mode_none, PromptMode}
use echoryn.Prompt.Workspace.{humanize, sections}
use echoryn.Prompt.Pipeline.{
  Pipeline, Sorting, assemble, set_workspace_loader, trim_newlines, mutated,
}
use echoryn.Prompt.Pipeline.Assembly.{
  Part, IsPicked, offered, IsMarked, laid_out, priority_of, assemble_correct,
}
use echoryn.Prompt.Sections.{new_default_pipeline, identity_line, architecture_text}

abbrev context : PromptMode → PromptContext
context mode = record {
  agent = some (record {
    id = codes "a";
    name = codes "a";
    system_prompt = codes "Be brief.";
    persona = none;
  });
  session_id = [];
  mode = mode;
  cluster_info = none;
  node_id = [];
  now = codes "noon";
  model_name = [];
  tools = [];
}

abbrev by_priority : Sorting
by_priority = record {
  by_section = sort_by priority_of;
  by_mutator = λ ms. ms;
  by_string = λ names. names;
}

abbrev pipeline : Pipeline
pipeline =
    set_workspace_loader (some ((codes "extra:my-rules", codes "No jokes.") ∷ []))
      (new_default_pipeline (codes "v1"))

-- Only the first letter of a heading is raised.
heading : humanize (codes "extra:my-rules") ≡ codes "My rules"
unfolding humanize
heading = refl

-- The least mode shows the identity alone.
identity_alone :
    (assemble by_priority (context mode_none) pipeline).0
    ≡ identity_line none ++ (codes "\n\n" ++ architecture_text Bool.false)
unfolding assemble new_default_pipeline sections
identity_alone = refl

minimal :
    (assemble by_priority (context mode_minimal) pipeline).0
    ≡ identity_line none
      ++ (codes "\n\n"
          ++ (architecture_text Bool.false ++ codes "\n\nBe brief.\n\n## My rules\n\nNo jokes."))
unfolding assemble new_default_pipeline sections
minimal = refl

pipeline-IsMarked : IsMarked pipeline
unfolding new_default_pipeline
pipeline-IsMarked = λ e. absurd cc

assemble_correct_example :
    (shown : List PromptSection) × (parts : List Part) × Perm shown (offered by_priority pipeline)
    × Ascending priority_of shown
    × IsPicked (context mode_minimal) shown parts
    × ((assemble by_priority (context mode_minimal) pipeline).0
        ≡ mutated
            (context mode_minimal)
            (assemble by_priority (context mode_minimal) pipeline).1.mutators
            (trim_newlines (laid_out parts)))
    × IsMarked (assemble by_priority (context mode_minimal) pipeline).1
assemble_correct_example =
    assemble_correct by_priority (sort_by-IsSort priority_of) (context mode_minimal) pipeline
      pipeline-IsMarked
