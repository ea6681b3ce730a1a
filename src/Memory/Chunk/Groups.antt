-- ===== src/Memory/Chunk/Groups.antt =====
-- internal/hivemind/service/plugin/builtin/memory-core/internal/chunk.go: how the chunks follow each other.
use mathlib.Core.List.{append_assoc, append-nil}
use echoryn.Prelude.{
  Text, ℕ, zero, suc, ◌+◌, ◌≤◌, ◌<◌, ◌≡◌, refl, sym, false, not, ◌&&◌, List, [], ◌∷◌, ◌++◌, map,
  some, length, get_elem?, take, drop, ◌==◌, leb, ltb, arith, Bool-cases, inl, inr, get_elem?-some,
  take-append-drop, length-append, length-map, ◌*◌,
}
use echoryn.Memory.Chunk.{
  LineEntry, ChunkingConfig, line_size, size, carry_loop, carry_overlap, group_loop, entries,
  groups, max_chars_of, split_lines, split_loop, segments, entry,
}
use echoryn.Memory.Chunk.Lines.{split_loop-cons, segments_some}

-- The chunks hold the entries in order: each starts with what it carries over, a suffix of the chunk
-- before it, and goes on with at least one entry that no chunk before it has.
pub data Grouped : List LineEntry → List LineEntry → List (List LineEntry) → Type 0 where
  last :
      (carry fresh : List LineEntry)
      → 0 < length fresh
      → Grouped carry fresh ((carry ++ fresh) ∷ [])
  more :
      (carry fresh before kept rest : List LineEntry) (gs : List (List LineEntry))
      → 0 < length fresh
      → carry ++ fresh ≡ before ++ kept
      → Grouped kept rest gs
      → Grouped carry (fresh ++ rest) ((carry ++ fresh) ∷ gs)

drop-get_elem? :
    (xs : List LineEntry) (i : ℕ) (e : LineEntry)
    → get_elem? xs i ≡ some e
    → e ∷ drop (suc i) xs ≡ drop i xs
drop-get_elem? [] i e h = cc
drop-get_elem? (x ∷ xs) zero e h = grind arith
drop-get_elem? (x ∷ xs) (suc i) e h = drop-get_elem? xs i e h

drop-length : (xs : List LineEntry) → drop (length xs) xs ≡ []
drop-length [] = refl
drop-length (x ∷ xs) = drop-length xs

carry_loop-drop :
    (overlap : ℕ) (current : List LineEntry) (i acc : ℕ)
    → i ≤ length current
    → (k : ℕ) × (carry_loop overlap current i acc (drop i current) ≡ drop k current)
unfolding carry_loop
carry_loop-drop overlap current zero acc h = (0, refl)
carry_loop-drop overlap current (suc i) acc h =
    let (e, ex) = get_elem?-some current i (omega arith) in
    let same = drop-get_elem? current i e ex in
    elim (Bool-cases (leb overlap (acc + line_size e))) [
      | inl stop ↦ rw (carry_loop, ex, stop) (i, same)
      | inr on ↦
          rw (carry_loop, ex, on, same)
            (carry_loop-drop overlap current i (acc + line_size e) (omega arith))
    ]

-- What is carried over is a suffix of the chunk.
pub carry_overlap_suffix :
    (overlap : ℕ) (current : List LineEntry)
    → (before : List LineEntry) × (current ≡ before ++ carry_overlap overlap current)
unfolding carry_overlap
carry_overlap_suffix overlap current = elim (Bool-cases (overlap == 0)) [
  | inl off ↦ rw (carry_overlap, off) (current, sym (append-nil current))
  | inr on ↦
      let (k, e) = carry_loop-drop overlap current (length current) 0 (omega arith) in
      let suffix : carry_loop overlap current (length current) 0 [] ≡ drop k current =
        rw (drop-length current) at e in
      rw (carry_overlap, on, suffix) (take k current, sym (take-append-drop k current))
]

group_loop-Grouped :
    (max_chars overlap : ℕ) (carry fresh : List LineEntry) (chars : ℕ) (es : List LineEntry)
    → 0 < length fresh
    → Grouped carry (fresh ++ es) (group_loop max_chars overlap (carry ++ fresh) chars es)
unfolding group_loop
group_loop-Grouped max_chars overlap carry fresh chars [] h =
    let some_held : (length (carry ++ fresh) == 0) ≡ false =
      ground (arith, length-append carry fresh) in
    rw (group_loop, some_held, append-nil fresh) (last carry fresh h)
group_loop-Grouped max_chars overlap carry fresh chars (e ∷ es) h =
    elim (Bool-cases (ltb max_chars (chars + line_size e) && not (length (carry ++ fresh) == 0))) [
      | inl full ↦
          let (before, split) = carry_overlap_suffix overlap (carry ++ fresh) in
          let kept = carry_overlap overlap (carry ++ fresh) in
          rw (group_loop, full)
            (more carry fresh before kept (e ∷ es) _ h split (
              group_loop-Grouped max_chars overlap kept (e ∷ []) (size kept + line_size e) es
                (omega arith)))
      | inr room ↦
          let rest =
            group_loop-Grouped max_chars overlap carry (fresh ++ (e ∷ [])) (chars + line_size e) es
              (omega (arith, length-append fresh (e ∷ []))) in
          rw (group_loop, room, append_assoc carry fresh (e ∷ []))
            (rw (append_assoc fresh (e ∷ []) es) at rest)
    ]

group_all :
    (max_chars overlap : ℕ) (es : List LineEntry)
    → 0 < length es
    → Grouped [] es (group_loop max_chars overlap [] 0 es)
unfolding group_loop
group_all max_chars overlap [] h = absurd (omega arith)
group_all max_chars overlap (e ∷ es) h = elim (Bool-cases (ltb max_chars (0 + line_size e))) [
  | inl long ↦
      rw (group_loop, long)
        (group_loop-Grouped max_chars overlap [] (e ∷ []) (0 + line_size e) es (omega arith))
  | inr short ↦
      rw (group_loop, short)
        (group_loop-Grouped max_chars overlap [] (e ∷ []) (0 + line_size e) es (omega arith))
]

entries_some :
    (max_chars line_no : ℕ) (l : Text) (lines : List Text)
    → 0 < length (entries max_chars line_no (l ∷ lines))
unfolding entries
entries_some max_chars line_no l lines = omega (
  arith,
  length-append (map (entry line_no) (segments max_chars l))
      (entries max_chars (suc line_no) lines),
  length-map (entry line_no) (segments max_chars l),
  segments_some max_chars l,
)

-- The chunks of a document follow each other as they should: in order, without a gap, each starting
-- with a suffix of the one before it.
pub groups-Grouped :
    (content : Text) (cfg : ChunkingConfig)
    → Grouped [] (entries (max_chars_of cfg) 1 (split_lines content)) (groups content cfg)
unfolding groups split_lines
groups-Grouped content cfg =
    let (l, lines, e) = split_loop-cons [] content in
    let some_lines : 0 < length (entries (max_chars_of cfg) 1 (split_loop [] content)) =
      rw e (entries_some (max_chars_of cfg) 1 l lines) in
    group_all (max_chars_of cfg) (cfg.overlap * 4)
      (entries (max_chars_of cfg) 1 (split_lines content)) some_lines
