-- ===== src/Memory/Hybrid.antt =====
-- internal/hivemind/service/plugin/builtin/memory-core/internal/hybrid/hybrid.go: the query for the full text search, and the
-- merge of the results of two searches. Scores are finite floats, that is multiples of the least positive one; the weighted
-- sum of two scores and the sort of the results are arguments. Bytes beyond ASCII are no letters.
pub mod Tokens
pub mod Merge
use echoryn.Prelude.{
  Text, codes, Assoc, lookup, insert, is_empty, join, ℕ, ℤ, pos, Bool, ◌&&◌, ◌||◌, Option, none,
  some, List, [], ◌∷◌, ◌++◌, map, if◌then◌else◌, ◌==◌, leb,
}

abbrev pub Score : Type 0
Score = ℤ

pub record VectorResult : Type 0 where
  pub id : Text
  pub path : Text
  pub start_line : ℕ
  pub end_line : ℕ
  pub source : Text
  pub snippet : Text
  pub vector_score : Score

pub record KeywordResult : Type 0 where
  pub id : Text
  pub path : Text
  pub start_line : ℕ
  pub end_line : ℕ
  pub source : Text
  pub snippet : Text
  pub text_score : Score

pub record MemorySearchResult : Type 0 where
  pub path : Text
  pub start_line : ℕ
  pub end_line : ℕ
  pub score : Score
  pub snippet : Text
  pub source : Text

-- [A-Za-z0-9_]
unfoldable pub is_word : ℕ → Bool
is_word c =
    (leb b'A' c && leb c b'Z')
    || ((leb b'a' c && leb c b'z') || ((leb b'0' c && leb c b'9') || c == b'_'))

-- A token that has ended.
abbrev pub ended : Text → List Text → List Text
ended token rest = if is_empty token then rest else token ∷ rest

-- FindAllString, with the token that is being read.
unfoldable pub tokens : Text → Text → List Text
unfolding is_word
tokens token [] = ended token []
tokens token (c ∷ cs) =
    let longer = tokens (token ++ (c ∷ [])) cs in
    let next = tokens [] cs in if is_word c then longer else ended token next

abbrev pub quoted : Text → Text
quoted t = codes "\"" ++ (t ++ codes "\"")

-- TrimSpace and ReplaceAll find nothing in a token.
unfoldable pub build_fts_query : Text → Text
unfolding tokens
build_fts_query raw = join (codes " AND ") (map quoted (tokens [] raw))

pub record Merged : Type 0 where
  pub id : Text
  pub path : Text
  pub start_line : ℕ
  pub end_line : ℕ
  pub source : Text
  pub snippet : Text
  pub vector_score : Score
  pub text_score : Score

abbrev pub of_vector : VectorResult → Merged
of_vector r = record {
  id = r.id;
  path = r.path;
  start_line = r.start_line;
  end_line = r.end_line;
  source = r.source;
  snippet = r.snippet;
  vector_score = r.vector_score;
  text_score = pos 0;
}

unfoldable pub add_vectors : List VectorResult → Assoc Merged → Assoc Merged
add_vectors [] by_id = by_id
add_vectors (r ∷ rs) by_id = add_vectors rs (insert r.id (of_vector r) by_id)

-- What a keyword result makes of the entry of its id.
unfoldable pub absorb : Option Merged → KeywordResult → Merged
absorb (some existing) r = record existing {
  text_score = r.text_score;
  snippet = if is_empty r.snippet then existing.snippet else r.snippet;
}
absorb none r = record {
  id = r.id;
  path = r.path;
  start_line = r.start_line;
  end_line = r.end_line;
  source = r.source;
  snippet = r.snippet;
  vector_score = pos 0;
  text_score = r.text_score;
}

unfoldable pub add_keywords : List KeywordResult → Assoc Merged → Assoc Merged
unfolding absorb
add_keywords [] by_id = by_id
add_keywords (r ∷ rs) by_id = add_keywords rs (insert r.id (absorb (lookup r.id by_id) r) by_id)

abbrev pub result_of : (Score → Score → Score) → Merged → MemorySearchResult
result_of weigh e = record {
  path = e.path;
  start_line = e.start_line;
  end_line = e.end_line;
  score = weigh e.vector_score e.text_score;
  snippet = e.snippet;
  source = e.source;
}

unfoldable pub merge_results :
    (Score → Score → Score)
    → (List MemorySearchResult → List MemorySearchResult)
    → List VectorResult
    → List KeywordResult
    → List MemorySearchResult
unfolding add_vectors add_keywords
merge_results weigh sort_slice vector keyword = sort_slice (
    map (λ ((_, e) : Text × Merged). result_of weigh e)
      (add_keywords keyword (add_vectors vector [])))
