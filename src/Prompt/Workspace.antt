-- ===== src/Prompt/Workspace.antt =====
-- internal/hivemind/service/agents/domain/service/runtime/prompt/workspace.go: the sections of the files of a workspace.
-- A loader is the map of what it has read: reading and watching the directory are left out. sort.Strings
-- is an argument.
use echoryn.Prelude.{
  Text, codes, same, has_prefix, is_empty, upper_rune, Assoc, lookup, pos, ℕ, suc, ◌+◌, ℤ, Bool,
  not, List, [], ◌∷◌, ◌++◌, map, keep, any, none, some, drop, length, ◌==◌, if◌then◌else◌,
}
use echoryn.Prompt.Types.{PromptSection}

pub record ConventionFile : Type 0 where
  pub filename : Text
  pub section : Text
  pub heading : Text
  pub priority : ℤ

abbrev pub convention_files : List ConventionFile
convention_files =
    record {
      filename = codes "SOUL.md";
      section = codes "soul";
      heading = codes "## Soul";
      priority = pos 310;
    }
    ∷ record {
      filename = codes "IDENTITY.md";
      section = codes "identity_file";
      heading = codes "## Identity";
      priority = pos 320;
    }
    ∷ record {
      filename = codes "AGENTS.md";
      section = codes "agents_file";
      heading = codes "## Collaborating Agents";
      priority = pos 330;
    }
    ∷ []

-- The content by the name of the section.
abbrev pub WorkspaceLoader : Type 0
WorkspaceLoader = Assoc Text

unfoldable pub get_content : WorkspaceLoader → Text → Text
unfolding lookup
get_content wl name = elim (lookup name wl) [ none ↦ [] | some content ↦ content ]

-- A WorkspaceSection, which reads the content when it is rendered.
unfoldable pub workspace_section : WorkspaceLoader → Text → ℤ → Text → PromptSection
unfolding get_content
workspace_section wl name priority heading = record {
  name = codes "workspace:" ++ name;
  priority = priority;
  enabled = λ pc. not (is_empty (get_content wl name));
  render = λ pc.
      if is_empty (get_content wl name)
      then some []
      else some (heading ++ (codes "\n\n" ++ get_content wl name));
}

abbrev pub to_space : ℕ → ℕ
to_space c = if c == b'-' then b' ' else if c == b'_' then b' ' else c

-- strings.ToUpper(name[:1]) + name[1:], for a first character of one byte.
abbrev pub upper_first : Text → Text
upper_first [] = []
upper_first (c ∷ cs) = upper_rune c ∷ cs

unfoldable pub humanize : Text → Text
unfolding has_prefix upper_rune
humanize name =
    let bare =
      if has_prefix (codes "extra:") name then drop (length (codes "extra:")) name else name in
    upper_first (map to_space bare)

abbrev pub is_convention : Text → Bool
is_convention name = any (λ cf. same name cf.section) convention_files

unfoldable pub convention_sections : WorkspaceLoader → List ConventionFile → List PromptSection
unfolding get_content workspace_section
convention_sections wl [] = []
convention_sections wl (cf ∷ cfs) =
    if is_empty (get_content wl cf.section)
    then convention_sections wl cfs
    else workspace_section wl cf.section cf.priority cf.heading ∷ convention_sections wl cfs

-- The loop over the extra names, from index `i` on.
unfoldable pub extra_sections : WorkspaceLoader → ℕ → List Text → List PromptSection
unfolding humanize workspace_section
extra_sections wl i [] = []
extra_sections wl i (name ∷ names) =
    workspace_section wl name (pos (350 + i)) (codes "## " ++ humanize name)
    ∷ extra_sections wl (suc i) names

unfoldable pub sections : (List Text → List Text) → WorkspaceLoader → List PromptSection
unfolding convention_sections extra_sections same
sections sort_strings wl =
    convention_sections wl convention_files
    ++ extra_sections wl 0
        (sort_strings (keep (λ name. not (is_convention name)) (map (λ p. p.0) wl)))
