-- ===== src/Prompt/Sections.antt =====
-- internal/hivemind/service/agents/domain/service/runtime/prompt/sections.go: the sections that each prompt can have.
-- The version of the program is an argument.
use echoryn.Prelude.{
  Text, codes, is_empty, same, join, pos, Bool, true, false, not, List, [], ◌∷◌, ◌++◌, keep, Option,
  none, some, length, ◌==◌, if◌then◌else◌,
}
use echoryn.Prompt.Types.{
  AgentIdentityInfo, ToolSummary, GolemInfo, ClusterInfo, PromptContext, PromptSection,
}
use echoryn.Prompt.Pipeline.{Pipeline, new_pipeline, register_section}

-- The identity of the agent, behind two pointers.
abbrev pub identity_of : PromptContext → Option AgentIdentityInfo
identity_of pc = elim pc.agent [
  | none ↦ none
  | some agent ↦ elim agent.persona [ none ↦ none | some persona ↦ persona.identity ]
]

-- The cluster, if it has golems.
abbrev pub cluster_of : PromptContext → Option ClusterInfo
cluster_of pc = elim pc.cluster_info [
  | none ↦ none
  | some c ↦ if length c.golems == 0 then none else some c
]

abbrev is_some : {A : Type 0} → Option A → Bool
is_some none = false
is_some (some a) = true

abbrev eidolon_line : Text
eidolon_line =
    codes "You are an AI Agent powered by **Eidolon** — a decoupled distributed AI Agent platform."

unfoldable pub identity_line : Option AgentIdentityInfo → Text
identity_line none = eidolon_line
identity_line (some id) =
    (if is_empty id.name
      then eidolon_line
      else codes "You are **" ++ (id.name ++ codes "**, an AI Agent powered by Eidolon."))
    ++ (if is_empty id.vibe
        then []
        else codes "\nYour communication style: " ++ (id.vibe ++ codes "."))

unfoldable pub architecture_text : Bool → Text
architecture_text true =
    codes "You are the **Hivemind** — the central intelligence of an Eidolon cluster. "
    ++ (codes "You reason, decide, and orchestrate. "
        ++ codes
            "Remote Golem nodes serve as your hands — they execute tasks under your instruction with no autonomous will.")
architecture_text false =
    codes "You are running inside **Eidolon Hivemind** in standalone mode. "
    ++ codes "All capabilities are limited to LLM reasoning and locally available tools."

unfoldable pub identity_section : PromptSection
unfolding identity_line architecture_text
identity_section = record {
  name = codes "identity";
  priority = pos 100;
  enabled = λ pc. true;
  render = λ pc. some (
      identity_line (identity_of pc)
      ++ (codes "\n\n" ++ architecture_text (is_some (cluster_of pc))));
}

unfoldable pub golem_lines : List GolemInfo → Text
unfolding join
golem_lines [] = []
golem_lines (g ∷ gs) =
    let skills = if length g.skills == 0 then codes "none" else join (codes ", ") g.skills in
    codes "- **"
    ++ (g.name
        ++ (codes "** ["
            ++ (g.status ++ (codes "]: " ++ (skills ++ (codes "\n" ++ golem_lines gs))))))

unfoldable pub cluster_text : ClusterInfo → Text
unfolding golem_lines
cluster_text c =
    codes "## Cluster Topology\n\n"
    ++ (codes "Eidolon Hivemind `"
        ++ (c.hivemind_id
            ++ (codes "` (version: "
                ++ (c.version
                    ++ (codes ")\n\nConnected Golem nodes:\n"
                        ++ (golem_lines c.golems
                            ++ (codes
                                  "\nWhen a task requires capabilities beyond direct LLM interaction "
                                ++ (codes
                                      "(e.g., browsing the web, editing code on a remote machine), "
                                    ++ (codes "you can dispatch it to the appropriate Golem node. "
                                        ++ codes
                                            "Golem nodes have no autonomous will — they only execute your instructions.")))))))))

-- Render is called only where the section is enabled; on a nil cluster it would panic.
unfoldable pub cluster_section : PromptSection
unfolding cluster_text
cluster_section = record {
  name = codes "cluster_awareness";
  priority = pos 150;
  enabled = λ pc. is_some (cluster_of pc);
  render = λ pc. elim pc.cluster_info [ none ↦ none | some c ↦ some (cluster_text c) ];
}

unfoldable pub tool_lines : List ToolSummary → Text
tool_lines [] = []
tool_lines (t ∷ ts) =
    let desc = if is_empty t.description then codes "(no description)" else t.description in
    codes "- `" ++ (t.name ++ (codes "` — " ++ (desc ++ (codes "\n" ++ tool_lines ts))))

abbrev pub is_mcp : ToolSummary → Bool
is_mcp t = same t.source (codes "mcp")

unfoldable pub tooling_text : List ToolSummary → Text
unfolding tool_lines same
tooling_text tools =
    let plugin_tools = keep (λ t. not (is_mcp t)) tools in
    let mcp_tools = keep is_mcp tools in
    codes "## Available Tools\n\n"
    ++ (codes "You have access to the following tools. Use them when appropriate:\n\n"
        ++ ((if length plugin_tools == 0
              then []
              else codes "**Built-in Tools:**\n" ++ (tool_lines plugin_tools ++ codes "\n"))
            ++ (if length mcp_tools == 0
                then []
                else codes "**MCP Tools:**\n" ++ tool_lines mcp_tools)))

unfoldable pub tooling_section : PromptSection
unfolding tooling_text
tooling_section = record {
  name = codes "tooling";
  priority = pos 200;
  enabled = λ pc. not (length pc.tools == 0);
  render = λ pc. some (tooling_text pc.tools);
}

abbrev system_prompt_of : PromptContext → Option Text
system_prompt_of pc = elim pc.agent [ none ↦ none | some agent ↦ some agent.system_prompt ]

-- Render is called only where the section is enabled; on a nil agent it would panic.
unfoldable pub persona_section : PromptSection
persona_section = record {
  name = codes "persona";
  priority = pos 300;
  enabled = λ pc. elim (system_prompt_of pc) [ none ↦ false | some text ↦ not (is_empty text) ];
  render = system_prompt_of;
}

unfoldable pub runtime_section : Text → PromptSection
unfolding join
runtime_section git_version = record {
  name = codes "runtime";
  priority = pos 900;
  enabled = λ pc. true;
  render = λ pc.
      let model = if is_empty pc.model_name then [] else (codes "Model: " ++ pc.model_name) ∷ [] in
      some (
        codes "## Runtime\n\n"
        ++ join (codes " | ") (
            (codes "Current time: " ++ pc.now)
            ∷ (model ++ ((codes "Eidolon: " ++ git_version) ∷ []))));
}

unfoldable pub new_default_pipeline : Text → Pipeline
unfolding register_section identity_section cluster_section tooling_section persona_section
    runtime_section
new_default_pipeline git_version = register_section (runtime_section git_version) (
    register_section persona_section (
      register_section tooling_section
        (register_section cluster_section (register_section identity_section new_pipeline))))
