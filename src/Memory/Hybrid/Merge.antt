-- ===== src/Memory/Hybrid/Merge.antt =====
-- internal/hivemind/service/plugin/builtin/memory-core/internal/hybrid/hybrid.go: what MergeResults returns.
use mathlib.Core.List.{Perm}
use echoryn.Prelude.{
  Text, Assoc, lookup, insert, lookup-insert, same, same_iff, keep, map, ◌≡◌, refl, Bool-cases, inl,
  inr, Option, none, some, List, [], ◌∷◌, IsSort, Ascending, ℤ, pos, negsuc, zero, suc,
  if◌then◌else◌, arith, sym, ap,
}
use echoryn.Memory.Hybrid.{
  Score, VectorResult, KeywordResult, MemorySearchResult, Merged, of_vector, add_vectors, absorb,
  add_keywords, merge_results, is_empty,
}

-- The last vector result with an id.
abbrev pub last_vector : Text → List VectorResult → Option Merged → Option Merged
last_vector id [] found = found
last_vector id (r ∷ rs) found = last_vector id rs (
    if same r.id id
    then some (record {
      id = r.id;
      path = r.path;
      start_line = r.start_line;
      end_line = r.end_line;
      source = r.source;
      snippet = r.snippet;
      vector_score = r.vector_score;
      text_score = pos 0;
    })
    else found)

-- The score of the last keyword result, and the last snippet that is not empty.
abbrev pub last_score : Score → List KeywordResult → Score
last_score s [] = s
last_score s (r ∷ rs) = last_score r.text_score rs

abbrev pub last_snippet : Text → List KeywordResult → Text
last_snippet t [] = t
last_snippet t (r ∷ rs) = last_snippet (if is_empty r.snippet then t else r.snippet) rs

-- What the keyword results of one id make of its entry, or of none.
abbrev pub absorbed : Option Merged → List KeywordResult → Option Merged
absorbed none [] = none
absorbed none (r ∷ rs) = some (record {
  id = r.id;
  path = r.path;
  start_line = r.start_line;
  end_line = r.end_line;
  source = r.source;
  snippet = last_snippet r.snippet rs;
  vector_score = pos 0;
  text_score = last_score r.text_score rs;
})
absorbed (some e) rs =
    some (record e { text_score = last_score e.text_score rs; snippet = last_snippet e.snippet rs })

absorbed-none : (found : Option Merged) → absorbed found [] ≡ found
absorbed-none none = refl
absorbed-none (some e) = refl

absorb_step :
    (found : Option Merged) (r : KeywordResult) (rs : List KeywordResult)
    → absorbed (some (absorb found r)) rs ≡ absorbed found (r ∷ rs)
unfolding absorb
absorb_step none r rs = refl
absorb_step (some e) r rs = refl

abbrev pub entry_of : Text → List VectorResult → List KeywordResult → Option Merged
entry_of id vector keyword =
    absorbed (last_vector id vector none) (keep (λ r. same r.id id) keyword)

lookup-add_vectors :
    (id : Text) (rs : List VectorResult) (m : Assoc Merged)
    → lookup id (add_vectors rs m) ≡ last_vector id rs (lookup id m)
unfolding add_vectors
lookup-add_vectors id [] m = refl
lookup-add_vectors id (r ∷ rs) m =
    rw (lookup-add_vectors id rs (insert r.id (of_vector r) m), lookup-insert) refl

lookup-add_keywords :
    (id : Text) (rs : List KeywordResult) (m : Assoc Merged)
    → lookup id (add_keywords rs m) ≡ absorbed (lookup id m) (keep (λ r. same r.id id) rs)
unfolding add_keywords
lookup-add_keywords id [] m = sym (absorbed-none (lookup id m))
lookup-add_keywords id (r ∷ rs) m = elim (Bool-cases (same r.id id)) [
  | inl e ↦
      let it : lookup r.id m ≡ lookup id m = ap (λ k. lookup k m) ((same_iff r.id id).0 e) in
      rw
        (lookup-add_keywords id rs (insert r.id (absorb (lookup r.id m) r) m), lookup-insert, e, it)
        (absorb_step (lookup id m) r (keep (λ r'. same r'.id id) rs))
  | inr e ↦
      rw (lookup-add_keywords id rs (insert r.id (absorb (lookup r.id m) r) m), lookup-insert, e)
        refl
]

lookup-add_keywords_entry :
    (id : Text) (vector : List VectorResult) (keyword : List KeywordResult)
    → lookup id (add_keywords keyword (add_vectors vector [])) ≡ entry_of id vector keyword
unfolding lookup
lookup-add_keywords_entry id vector keyword =
    rw (lookup-add_keywords id keyword (add_vectors vector []), lookup-add_vectors id vector [])
      refl

-- No key stands twice.
abbrev pub IsDistinct : Assoc Merged → Type 0
IsDistinct [] = Unit
IsDistinct ((k, e) ∷ m) = (lookup k m ≡ none) × IsDistinct m

insert-IsDistinct :
    (k : Text) (v : Merged) (m : Assoc Merged) → IsDistinct m → IsDistinct (insert k v m)
unfolding insert lookup
insert-IsDistinct k v [] d = (refl, tt)
insert-IsDistinct k v ((j, w) ∷ m) d = elim (Bool-cases (same j k)) [
  | inl e ↦ rw e d
  | inr e ↦ rw e (
    ground (arith, lookup-insert k j v m, same_iff k j, same_iff j k, d.0),
    insert-IsDistinct k v m d.1,
  )
]

add_vectors-IsDistinct :
    (rs : List VectorResult) (m : Assoc Merged) → IsDistinct m → IsDistinct (add_vectors rs m)
unfolding add_vectors
add_vectors-IsDistinct [] m d = d
add_vectors-IsDistinct (r ∷ rs) m d =
    add_vectors-IsDistinct rs _ (insert-IsDistinct r.id (of_vector r) m d)

add_keywords-IsDistinct :
    (rs : List KeywordResult) (m : Assoc Merged) → IsDistinct m → IsDistinct (add_keywords rs m)
unfolding add_keywords
add_keywords-IsDistinct [] m d = d
add_keywords-IsDistinct (r ∷ rs) m d =
    add_keywords-IsDistinct rs _ (insert-IsDistinct r.id (absorb (lookup r.id m) r) m d)

-- The order of the results: the highest score first.
abbrev pub negated : MemorySearchResult → ℤ
negated r = elim r.score [ pos zero ↦ pos 0 | pos (suc n) ↦ negsuc n | negsuc n ↦ pos (suc n) ]

-- The result for an entry: its place and its texts, with the weighted sum of its scores.
abbrev pub shown : (Score → Score → Score) → Text × Merged → MemorySearchResult
shown weigh (id, e) = record {
  path = e.path;
  start_line = e.start_line;
  end_line = e.end_line;
  score = weigh e.vector_score e.text_score;
  snippet = e.snippet;
  source = e.source;
}

-- Where the sort is one, the results have descending scores, and are a permutation of the results for a list with
-- exactly one entry for each id: the last vector result with that id, with the score of the last keyword result
-- with it and the last snippet among these that is not empty; where no vector result has the id, the first keyword
-- result, continued in the same way; and none where neither has it.
pub merge_results_correct :
    (weigh : Score → Score → Score) (sort_slice : List MemorySearchResult → List MemorySearchResult)
    → IsSort negated sort_slice
    → (vector : List VectorResult) (keyword : List KeywordResult)
    → let results = merge_results weigh sort_slice vector keyword in
      (entries : Assoc Merged) × IsDistinct entries
      × ((id : Text) → lookup id entries ≡ entry_of id vector keyword)
      × Perm results (map (shown weigh) entries)
      × Ascending negated results
unfolding merge_results
merge_results_correct weigh sort_slice is_sort vector keyword =
    let by_id = add_keywords keyword (add_vectors vector []) in
    (
      by_id,
      add_keywords-IsDistinct keyword _ (add_vectors-IsDistinct vector [] tt),
      λ id. lookup-add_keywords_entry id vector keyword,
      is_sort.permutes (map (shown weigh) by_id),
      is_sort.ascends (map (shown weigh) by_id),
    )
