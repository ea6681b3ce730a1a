-- ===== src/Memory/Chunk/Lines.antt =====
-- internal/hivemind/service/plugin/builtin/memory-core/internal/chunk.go: lines and their segments make up
-- the document.
use mathlib.Core.List.{append_assoc, append-nil}
use echoryn.Prelude.{
  Text, ℕ, zero, suc, ◌≤◌, ◌<◌, ◌≡◌, refl, sym, ap, ◌∙◌, false, List, [], ◌∷◌, ◌++◌, map, length,
  take, drop, join, ◌==◌, arith, Bool-cases, inl, inr, All, length-drop, length-take,
  take-append-drop, suc-==-zero,
}
use echoryn.Memory.Chunk.{split_loop, split_lines, segment_loop, segments}

abbrev pub newline : Text
newline = b'\n' ∷ []

pub split_loop-cons :
    (line content : Text) → (x : Text) × (rest : List Text) × (split_loop line content ≡ x ∷ rest)
unfolding split_loop
split_loop-cons line [] = (line, [], refl)
split_loop-cons line (c ∷ cs) = elim (Bool-cases (c == b'\n')) [
  | inl e ↦ rw (split_loop, e) (line, split_loop [] cs, refl)
  | inr e ↦ rw (split_loop, e) (split_loop-cons (line ++ (c ∷ [])) cs)
]

split_loop-join : (line content : Text) → join newline (split_loop line content) ≡ line ++ content
unfolding split_loop join
split_loop-join line [] = sym (append-nil line)
split_loop-join line (c ∷ cs) = elim (Bool-cases (c == b'\n')) [
  | inl e ↦
      let (x, rest, e2) = split_loop-cons [] cs in
      let ih = split_loop-join [] cs in
      let ends : c ≡ b'\n' = ground arith in
      rw (split_loop, e, e2, ends) (ap (λ t. line ++ (b'\n' ∷ t)) (rw e2 at ih))
  | inr e ↦
      rw (split_loop, e) (split_loop-join (line ++ (c ∷ [])) cs ∙ append_assoc line (c ∷ []) cs)
]

-- The slices of a line, one after the other.
abbrev pub concat : List Text → Text
concat [] = []
concat (t ∷ ts) = t ++ concat ts

segment_loop-concat :
    (f max_chars : ℕ) (line : Text)
    → 0 < max_chars
    → length line ≤ f
    → concat (segment_loop f max_chars line) ≡ line
unfolding segment_loop
segment_loop-concat zero max_chars [] pos h = refl
segment_loop-concat zero max_chars (c ∷ line) pos h = absurd (omega arith)
segment_loop-concat (suc f) max_chars [] pos h = refl
segment_loop-concat (suc f) max_chars (c ∷ line) pos h =
    let rest =
      segment_loop-concat f max_chars (drop max_chars (c ∷ line)) pos
        (omega (arith, length-drop max_chars (c ∷ line))) in
    let some_left : (length (c ∷ line) == 0) ≡ false = suc-==-zero (length line) in
    rw (segment_loop, some_left)
      (ap (λ r. take max_chars (c ∷ line) ++ r) rest ∙ take-append-drop max_chars (c ∷ line))

segments-concat :
    (max_chars : ℕ) (line : Text) → 0 < max_chars → concat (segments max_chars line) ≡ line
unfolding segments
segments-concat max_chars [] pos = refl
segments-concat max_chars (c ∷ line) pos =
    let some_left : (length (c ∷ line) == 0) ≡ false = suc-==-zero (length line) in
    rw (segments, some_left)
      (rw (segment_loop, some_left) at
        (segment_loop-concat (length (c ∷ line)) max_chars (c ∷ line) pos (omega arith)))

map-segments-concat :
    (max_chars : ℕ) (lines : List Text)
    → 0 < max_chars
    → map (λ l. concat (segments max_chars l)) lines ≡ lines
map-segments-concat max_chars [] pos = refl
map-segments-concat max_chars (l ∷ lines) pos =
    rw (segments-concat max_chars l pos) (ap (◌∷◌ l) (map-segments-concat max_chars lines pos))

-- With a positive limit the segments of the lines, put together again, are the document: nothing is lost
-- in cutting.
pub segments_rebuild :
    (content : Text) (max_chars : ℕ)
    → 0 < max_chars
    → join newline (map (λ l. concat (segments max_chars l)) (split_lines content)) ≡ content
unfolding split_lines
segments_rebuild content max_chars pos =
    rw (map-segments-concat max_chars (split_loop [] content) pos) (split_loop-join [] content)

All-short :
    (f max_chars : ℕ) (line : Text)
    → All (λ t. length t ≤ max_chars) (segment_loop f max_chars line)
unfolding segment_loop
All-short zero max_chars line = tt
All-short (suc f) max_chars [] = tt
All-short (suc f) max_chars (c ∷ line) =
    let some_left : (length (c ∷ line) == 0) ≡ false = suc-==-zero (length line) in
    rw (segment_loop, some_left)
      (
        omega (arith, length-take max_chars (c ∷ line)),
        All-short f max_chars (drop max_chars (c ∷ line)),
      )

-- No segment is longer than the limit.
pub segments_short :
    (max_chars : ℕ) (line : Text) → All (λ t. length t ≤ max_chars) (segments max_chars line)
unfolding segments
segments_short max_chars [] = (omega arith, tt)
segments_short max_chars (c ∷ line) =
    let some_left : (length (c ∷ line) == 0) ≡ false = suc-==-zero (length line) in
    rw (segments, some_left)
      (rw (segment_loop, some_left) at (All-short (length (c ∷ line)) max_chars (c ∷ line)))

-- A line has at least one segment.
pub segments_some : (max_chars : ℕ) (line : Text) → 0 < length (segments max_chars line)
unfolding segments segment_loop
segments_some max_chars [] = omega arith
segments_some max_chars (c ∷ line) =
    let some_left : (length (c ∷ line) == 0) ≡ false = suc-==-zero (length line) in
    rw (segments, some_left) (omega arith)
