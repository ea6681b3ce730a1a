-- ===== src/Memory/Tests.antt =====
-- internal/hivemind/service/plugin/builtin/memory-core: runs of the model, and the theorems at concrete
-- inputs.
use echoryn.Prelude.{
  Text, codes, ◌*◌, ◌<◌, ◌≡◌, refl, [], ◌∷◌, All, length, take, join, List, insert, Ascending, pos,
  map, lookup, sort_by, ◌+◌, same, sort_by-IsSort, Assoc,
}
use mathlib.Core.List.{Perm}
use echoryn.Memory.Hybrid.{
  Score, VectorResult, KeywordResult, MemorySearchResult, Merged, tokens, build_fts_query,
  merge_results,
}
use echoryn.Memory.Hybrid.Tokens.{IsCut, tokens_correct}
use echoryn.Memory.Hybrid.Merge.{IsDistinct, shown, entry_of, negated, merge_results_correct}
use echoryn.Memory.Chunk.{
  ChunkingConfig, max_chars_of, split_lines, entries, groups, chunk_markdown,
}
use echoryn.Memory.Chunk.Groups.{Grouped, groups-Grouped}
use echoryn.Memory.Chunk.Sizes.{chunk_limit, chunk_markdown_size}

abbrev cfg : ChunkingConfig
cfg = record { tokens = 2; overlap = 2 }

abbrev document : Text
document = codes "# title\nfirst line of text\nsecond line\n\nthird line"

abbrev first_bytes : Text → Text
first_bytes t = take 4 t

-- The second line is carried over into the second chunk, and the third into the last.
chunks :
    chunk_markdown first_bytes document cfg
    ≡ record {
      start_line = 1;
      end_line = 2;
      text = codes "# title\nfirst line of text";
      hash = codes "# ti";
    }
      ∷ record {
        start_line = 2;
        end_line = 4;
        text = codes "first line of text\nsecond line\n";
        hash = codes "firs";
      }
      ∷ record {
        start_line = 3;
        end_line = 5;
        text = codes "second line\n\nthird line";
        hash = codes "seco";
      }
      ∷ []
unfolding chunk_markdown
chunks = refl

groups-Grouped_example :
    Grouped [] (entries (max_chars_of cfg) 1 (split_lines document)) (groups document cfg)
groups-Grouped_example = groups-Grouped document cfg

chunk_markdown_size_example :
    All
      (λ c. length c.text < chunk_limit (max_chars_of cfg) (cfg.overlap * 4))
      (chunk_markdown first_bytes document cfg)
chunk_markdown_size_example = chunk_markdown_size first_bytes document cfg

query : build_fts_query (codes "foo-bar \"baz_1\"!") ≡ codes "\"foo\" AND \"bar\" AND \"baz_1\""
unfolding build_fts_query join
query = refl

tokens_correct_example : IsCut (tokens [] (codes "a \"b\"")) (codes "a \"b\"")
tokens_correct_example = tokens_correct (codes "a \"b\"")

abbrev of_vectors : List VectorResult
of_vectors =
    record {
      id = codes "1";
      path = codes "a.md";
      start_line = 1;
      end_line = 4;
      source = codes "memory";
      snippet = codes "from vectors";
      vector_score = pos 5;
    }
    ∷ []

abbrev keyword_result : Text → Text → Score → KeywordResult
keyword_result id snippet s = record {
  id = id;
  path = codes "a.md";
  start_line = 1;
  end_line = 4;
  source = codes "memory";
  snippet = snippet;
  text_score = s;
}

abbrev of_keywords : List KeywordResult
of_keywords =
    keyword_result (codes "1") [] (pos 2)
    ∷ keyword_result (codes "2") (codes "from keywords") (pos 9)
    ∷ []

abbrev weigh : Score → Score → Score
weigh (pos a) (pos b) = pos (a + b)
weigh a b = a

abbrev scores : List MemorySearchResult → List Score
scores rs = map (λ r. r.score) rs

-- The two results with the first id become one, with the sum of their scores.
merge_run :
    scores (merge_results weigh (sort_by negated) of_vectors of_keywords) ≡ pos 9 ∷ pos 7 ∷ []
unfolding merge_results insert lookup same
merge_run = refl

merge_results_correct_example :
    let results = merge_results weigh (sort_by negated) of_vectors of_keywords in
    (entries : Assoc Merged) × IsDistinct entries
    × ((id : Text) → lookup id entries ≡ entry_of id of_vectors of_keywords)
    × Perm results (map (shown weigh) entries)
    × Ascending negated results
merge_results_correct_example =
    merge_results_correct weigh (sort_by negated) (sort_by-IsSort negated) of_vectors of_keywords
