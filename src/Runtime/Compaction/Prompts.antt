-- ===== src/Runtime/Compaction/Prompts.antt =====
-- internal/hivemind/service/agents/domain/service/runtime/compaction.go: the texts that are sent to
-- the model, and strings.TrimSpace.
use mathlib.Core.List.{reverse}
use echoryn.Prelude.{
  Text, codes, length, take, drop, decimal, is_empty, ℕ, suc, ◌+◌, ◌-◌, ◌++◌, Bool, ◌&&◌, ◌||◌,
  List, [], ◌∷◌, if◌then◌else◌, ltb, leb, ◌==◌,
}
use echoryn.Runtime.Message.{SchemaMessage, ToolCall, Role, system, user, assistant, tool, other}

unfoldable pub is_space : ℕ → Bool
is_space c =
    (leb 9 c && leb c 13)
    || (c == b' '
        || (c == 0x85
            || (c == 0xA0
                || (c == 0x1680
                    || ((leb 0x2000 c && leb c 0x200A)
                        || (c == 0x2028
                            || (c == 0x2029 || (c == 0x202F || (c == 0x205F || c == 0x3000)))))))))

trim_left : Text → Text
unfolding is_space
trim_left [] = []
trim_left (c ∷ cs) = if is_space c then trim_left cs else c ∷ cs

-- strings.TrimSpace
unfoldable pub trim_space : Text → Text
unfolding trim_left
trim_space t = reverse (trim_left (reverse (trim_left t)))

unfoldable pub truncate_str : Text → ℕ → Text
truncate_str s max_len = if leb (length s) max_len then s else take max_len s ++ codes "..."

-- The names that Eino gives the roles.
abbrev role_string : Role → Text
role_string system = codes "system"
role_string user = codes "user"
role_string assistant = codes "assistant"
role_string tool = codes "tool"
role_string (other r) = r

abbrev shortened : Text → Text
shortened content =
    if ltb 2000 (length content)
    then take 1000 content ++ (codes "\n...[truncated]...\n" ++ drop (length content - 500) content)
    else content

tool_call_lines : List ToolCall → Text
unfolding truncate_str
tool_call_lines [] = []
tool_call_lines (tc ∷ tcs) =
    codes "  → Tool call: "
    ++ (tc.name
        ++ (codes "(" ++ (truncate_str tc.arguments 200 ++ (codes ")\n" ++ tool_call_lines tcs))))

message_lines : List SchemaMessage → Text
unfolding tool_call_lines
message_lines [] = []
message_lines (m ∷ ms) =
    codes "["
    ++ (role_string m.role
        ++ (codes "]: "
            ++ (shortened m.content
                ++ (codes "\n\n" ++ (tool_call_lines m.tool_calls ++ message_lines ms)))))

-- The user prompt of summarizeChunk.
unfoldable pub chunk_prompt : List SchemaMessage → Text → ℕ → Text
unfolding message_lines
chunk_prompt messages existing_summary max_tokens =
    codes
      "You are a conversation summarizer. Summarize the following conversation messages concisely, preserving:\n"
    ++ (codes "- Key decisions and conclusions\n"
        ++ (codes "- Important facts and data points\n"
            ++ (codes "- Tool call results that are still relevant\n"
                ++ (codes "- User preferences and requirements expressed\n\n"
                    ++ (codes "Keep the summary under "
                        ++ (decimal max_tokens
                            ++ (codes " tokens. Write in the same language as the conversation.\n\n"
                                ++ ((if is_empty existing_summary
                                      then codes "Messages to summarize:\n\n"
                                      else codes "Previous conversation summary:\n"
                                        ++ (existing_summary
                                            ++ codes "\n\n---\n\nNew messages to summarize:\n\n"))
                                    ++ message_lines messages))))))))

part_lines : ℕ → ℕ → List Text → Text
part_lines i total [] = []
part_lines i total (p ∷ ps) =
    codes "--- Part "
    ++ (decimal (i + 1)
        ++ (codes "/"
            ++ (decimal total
                ++ (codes " ---\n" ++ (p ++ (codes "\n\n" ++ part_lines (suc i) total ps))))))

-- The user prompt of mergeSummaries.
unfoldable pub merge_prompt : List Text → ℕ → Text
unfolding part_lines
merge_prompt partials max_tokens =
    codes "Merge the following partial conversation summaries into a single cohesive summary.\n"
    ++ (codes "Keep the final summary under "
        ++ (decimal max_tokens
            ++ (codes " tokens. Preserve all key information.\n\n"
                ++ part_lines 0 (length partials) partials)))

abbrev pub chunk_system : Text
chunk_system =
    codes "You are a precise conversation summarizer. Output only the summary, no preamble."

abbrev pub merge_system : Text
merge_system =
    codes "You are a precise conversation summarizer. Output only the merged summary, no preamble."

-- What stands for the summary of a chunk that the model fails to give.
unfoldable pub missing_summary : ℕ → ℕ → ℕ → Text
missing_summary size i total =
    codes "[Summary of "
    ++ (decimal size
        ++ (codes " messages in conversation chunk "
            ++ (decimal (i + 1)
                ++ (codes "/" ++ (decimal total ++ codes " could not be generated]")))))
