-- ===== src/Memory/Chunk.antt =====
-- internal/hivemind/service/plugin/builtin/memory-core/internal/chunk.go: cutting a document into chunks.
-- Texts are lists of bytes here, as the code measures and slices bytes. The configuration is natural: a
-- negative number acts as 0. The two nested loops run over the segments of all lines in a row, and a
-- flush is the next entry of the result.
pub mod Lines
pub mod Groups
pub mod Sizes
use echoryn.Prelude.{
  Text, ℕ, zero, suc, ◌+◌, ◌*◌, Bool, not, ◌&&◌, List, [], ◌∷◌, ◌++◌, map, none, some, length,
  get_elem?, take, drop, last_or, join, ◌==◌, ltb, leb, if◌then◌else◌,
}

pub record ChunkingConfig : Type 0 where
  pub tokens : ℕ
  pub overlap : ℕ

pub record MemoryChunk : Type 0 where
  pub start_line : ℕ
  pub end_line : ℕ
  pub text : Text
  pub hash : Text

pub record LineEntry : Type 0 where
  pub line : Text
  pub line_no : ℕ

-- strings.Split at each newline, with the line that is being read.
unfoldable pub split_loop : Text → Text → List Text
split_loop line [] = line ∷ []
split_loop line (c ∷ cs) =
    let next = split_loop [] cs in
    let longer = split_loop (line ++ (c ∷ [])) cs in if c == b'\n' then line ∷ next else longer

unfoldable pub split_lines : Text → List Text
unfolding split_loop
split_lines content = split_loop [] content

-- The slices of `line` by `max_chars`; the fuel is the length of the line.
unfoldable pub segment_loop : ℕ → ℕ → Text → List Text
segment_loop zero max_chars line = []
segment_loop (suc f) max_chars line =
    let rest = segment_loop f max_chars (drop max_chars line) in
    if length line == 0 then [] else take max_chars line ∷ rest

unfoldable pub segments : ℕ → Text → List Text
unfolding segment_loop
segments max_chars line =
    if length line == 0 then [] ∷ [] else segment_loop (length line) max_chars line

abbrev pub entry : ℕ → Text → LineEntry
entry line_no segment = record { line = segment; line_no = line_no }

unfoldable pub entries : ℕ → ℕ → List Text → List LineEntry
unfolding segments
entries max_chars line_no [] = []
entries max_chars line_no (l ∷ lines) =
    map (entry line_no) (segments max_chars l) ++ entries max_chars (suc line_no) lines

abbrev pub line_size : LineEntry → ℕ
line_size e = length e.line + 1

abbrev pub size : List LineEntry → ℕ
size [] = 0
size (e ∷ es) = line_size e + size es

-- `for i := len(current) - 1; i >= 0; i--` with `i + 1` rounds left.
unfoldable pub carry_loop : ℕ → List LineEntry → ℕ → ℕ → List LineEntry → List LineEntry
carry_loop overlap current zero acc kept = kept
carry_loop overlap current (suc i) acc kept = elim (get_elem? current i) [
  | none ↦ kept
  | some e ↦
      let rest = carry_loop overlap current i (acc + line_size e) (e ∷ kept) in
      if leb overlap (acc + line_size e) then e ∷ kept else rest
]

unfoldable pub carry_overlap : ℕ → List LineEntry → List LineEntry
unfolding carry_loop
carry_overlap overlap current =
    if overlap == 0 then [] else carry_loop overlap current (length current) 0 []

-- The loop over the segments, with the entries that are collected and their size; the lists that are
-- flushed, in order.
unfoldable pub group_loop : ℕ → ℕ → List LineEntry → ℕ → List LineEntry → List (List LineEntry)
unfolding carry_overlap
group_loop max_chars overlap current chars [] = if length current == 0 then [] else current ∷ []
group_loop max_chars overlap current chars (e ∷ es) =
    let kept = carry_overlap overlap current in
    let cut =
      current ∷ group_loop max_chars overlap (kept ++ (e ∷ [])) (size kept + line_size e) es in
    let grow = group_loop max_chars overlap (current ++ (e ∷ [])) (chars + line_size e) es in
    if ltb max_chars (chars + line_size e) && not (length current == 0) then cut else grow

unfoldable pub flush_chunk : (Text → Text) → LineEntry → List LineEntry → MemoryChunk
unfolding join
flush_chunk hash_text first rest =
    let text = join (b'\n' ∷ []) (map (λ (e : LineEntry). e.line) (first ∷ rest)) in
    record {
      start_line = first.line_no;
      end_line = (last_or first rest).line_no;
      text = text;
      hash = hash_text text;
    }

unfoldable pub flush_all : (Text → Text) → List (List LineEntry) → List MemoryChunk
unfolding flush_chunk
flush_all hash_text [] = []
flush_all hash_text ([] ∷ groups) = flush_all hash_text groups
flush_all hash_text ((first ∷ rest) ∷ groups) =
    flush_chunk hash_text first rest ∷ flush_all hash_text groups

abbrev pub max_chars_of : ChunkingConfig → ℕ
max_chars_of cfg = if ltb 32 (cfg.tokens * 4) then cfg.tokens * 4 else 32

unfoldable pub groups : Text → ChunkingConfig → List (List LineEntry)
unfolding split_lines entries group_loop
groups content cfg =
    let max_chars = max_chars_of cfg in
    group_loop max_chars (cfg.overlap * 4) [] 0 (entries max_chars 1 (split_lines content))

-- ChunkMarkdown; `hash_text` is HashText.
unfoldable pub chunk_markdown : (Text → Text) → Text → ChunkingConfig → List MemoryChunk
unfolding groups flush_all
chunk_markdown hash_text content cfg = flush_all hash_text (groups content cfg)
