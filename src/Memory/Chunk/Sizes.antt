-- ===== src/Memory/Chunk/Sizes.antt =====
-- internal/hivemind/service/plugin/builtin/memory-core/internal/chunk.go: how large a chunk may become.
use echoryn.Prelude.{
  Text, ℕ, zero, suc, ◌+◌, ◌*◌, ◌≤◌, ◌<◌, ◌≡◌, refl, false, not, ◌&&◌, List, [], ◌∷◌, ◌++◌, map,
  some, length, get_elem?, join, ◌==◌, leb, ltb, if◌then◌else◌, arith, Bool-cases, inl, inr, All,
  All-append, get_elem?-some, length-append,
}
use echoryn.Memory.Chunk.{
  LineEntry, ChunkingConfig, line_size, size, entry, carry_loop, carry_overlap, group_loop, entries,
  groups, segments, max_chars_of, split_lines, flush_chunk, flush_all, chunk_markdown,
}
use echoryn.Memory.Chunk.Lines.{newline, segments_short}
use echoryn.Memory.Chunk.Groups.{carry_overlap_suffix}

size-append : (xs ys : List LineEntry) → size (xs ++ ys) ≡ size xs + size ys
size-append [] ys = omega arith
size-append (x ∷ xs) ys = omega (arith, size-append xs ys)

abbrev IsShort : ℕ → List LineEntry → Type 0
IsShort m = All (λ e. line_size e ≤ m + 1)

IsShort-get_elem? :
    (m : ℕ) (xs : List LineEntry) (i : ℕ) (e : LineEntry)
    → IsShort m xs
    → get_elem? xs i ≡ some e
    → line_size e ≤ m + 1
IsShort-get_elem? m [] i e h k = cc
IsShort-get_elem? m (x ∷ xs) zero e h k = let it : x ≡ e = grind arith in rw it at h.0
IsShort-get_elem? m (x ∷ xs) (suc i) e h k = IsShort-get_elem? m xs i e h.1 k

IsShort-right : (m : ℕ) (xs ys : List LineEntry) → IsShort m (xs ++ ys) → IsShort m ys
IsShort-right m [] ys h = h
IsShort-right m (x ∷ xs) ys h = IsShort-right m xs ys h.1

carry_loop-size :
    (m overlap : ℕ) (current : List LineEntry) (i acc : ℕ) (kept : List LineEntry)
    → IsShort m current
    → size kept ≡ acc
    → acc < overlap
    → i ≤ length current
    → size (carry_loop overlap current i acc kept) ≤ overlap + m
unfolding carry_loop
carry_loop-size m overlap current zero acc kept h s low p = omega arith
carry_loop-size m overlap current (suc i) acc kept h s low p =
    let (e, ex) = get_elem?-some current i (omega arith) in
    let short = IsShort-get_elem? m current i e h ex in
    elim (Bool-cases (leb overlap (acc + line_size e))) [
      | inl stop ↦ rw (carry_loop, ex, stop) (omega arith)
      | inr on ↦
          rw (carry_loop, ex, on)
            (carry_loop-size m overlap current i (acc + line_size e) (e ∷ kept) h (omega arith)
              (ground arith) (omega arith))
    ]

-- What may be carried over, of lines whose segments have at most `m` bytes.
abbrev pub carry_limit : ℕ → ℕ → ℕ
carry_limit m overlap = if overlap == 0 then 0 else overlap + m

carry_overlap-size :
    (m overlap : ℕ) (current : List LineEntry)
    → IsShort m current
    → size (carry_overlap overlap current) ≤ carry_limit m overlap
unfolding carry_overlap
carry_overlap-size m overlap current h = elim (Bool-cases (overlap == 0)) [
  | inl off ↦ rw (carry_overlap, off) (omega arith)
  | inr on ↦
      rw (carry_overlap, on)
        (carry_loop-size m overlap current (length current) 0 [] h (omega arith) (ground arith)
          (omega arith))
]

abbrev pub chunk_limit : ℕ → ℕ → ℕ
chunk_limit m overlap = carry_limit m overlap + (m + 1)

group_loop-size :
    (m overlap : ℕ) (current : List LineEntry) (chars : ℕ) (es : List LineEntry)
    → IsShort m current
    → IsShort m es
    → size current ≡ chars
    → chars ≤ chunk_limit m overlap
    → All (λ g. size g ≤ chunk_limit m overlap) (group_loop m overlap current chars es)
unfolding group_loop
group_loop-size m overlap current chars [] h k s low = elim (Bool-cases (length current == 0)) [
  | inl none_held ↦ rw (group_loop, none_held) tt
  | inr some_held ↦ rw (group_loop, some_held) (omega arith, tt)
]
group_loop-size m overlap current chars (e ∷ es) h k s low =
    elim (Bool-cases (ltb m (chars + line_size e) && not (length current == 0))) [
      | inl full ↦
          let kept = carry_overlap overlap current in
          let (before, split) = carry_overlap_suffix overlap current in
          let small = carry_overlap-size m overlap current h in
          let short : IsShort m kept = IsShort-right m before kept (rw split at h) in
          rw (group_loop, full)
            (
              omega (arith, s, low),
              group_loop-size m overlap (kept ++ (e ∷ [])) (size kept + line_size e) es
                  (All-append (λ x. line_size x ≤ m + 1) kept (e ∷ []) short (k.0, tt)) k.1
                  (omega (arith, size-append kept (e ∷ []))) (omega (arith, small, k.0)),
            )
      | inr room ↦
          let fits : chars + line_size e ≤ chunk_limit m overlap =
            grow_fits current chars e s k.0 room in
          rw (group_loop, room)
            (group_loop-size m overlap (current ++ (e ∷ [])) (chars + line_size e) es
              (All-append (λ x. line_size x ≤ m + 1) current (e ∷ []) h (k.0, tt)) k.1
              (omega (arith, size-append current (e ∷ []), s)) fits)
    ]
  where
    grow_fits :
        (current : List LineEntry) (chars : ℕ) (e : LineEntry)
        → size current ≡ chars
        → line_size e ≤ m + 1
        → (ltb m (chars + line_size e) && not (length current == 0)) ≡ false
        → chars + line_size e ≤ chunk_limit m overlap
    grow_fits [] chars e s short room = omega (arith, s, short)
    grow_fits (x ∷ current) chars e s short room = ground arith

IsShort-segments :
    (m line_no : ℕ) (ts : List Text)
    → All (λ t. length t ≤ m) ts
    → IsShort m (map (entry line_no) ts)
IsShort-segments m line_no [] h = tt
IsShort-segments m line_no (t ∷ ts) h = (omega (arith, h.0), IsShort-segments m line_no ts h.1)

IsShort-entries : (m line_no : ℕ) (lines : List Text) → IsShort m (entries m line_no lines)
unfolding entries
IsShort-entries m line_no [] = tt
IsShort-entries m line_no (l ∷ lines) =
    All-append (λ x. line_size x ≤ m + 1) (map (entry line_no) (segments m l))
      (entries m (suc line_no) lines)
      (IsShort-segments m line_no (segments m l) (segments_short m l))
      (IsShort-entries m (suc line_no) lines)

length-join :
    (x : LineEntry) (xs : List LineEntry)
    → length (join newline (map (λ (e : LineEntry). e.line) (x ∷ xs))) + 1 ≡ size (x ∷ xs)
unfolding join
length-join x [] = omega arith
length-join x (y ∷ ys) = omega (
  arith,
  length-append x.line (newline ++ join newline (map (λ (e : LineEntry). e.line) (y ∷ ys))),
  length-join y ys,
)

flush_all-size :
    (hash_text : Text → Text) (limit : ℕ) (gs : List (List LineEntry))
    → All (λ g. size g ≤ limit) gs
    → All (λ c. length c.text < limit) (flush_all hash_text gs)
unfolding flush_all flush_chunk
flush_all-size hash_text limit [] h = tt
flush_all-size hash_text limit ([] ∷ gs) h = flush_all-size hash_text limit gs h.1
flush_all-size hash_text limit ((x ∷ xs) ∷ gs) h =
    (omega (arith, length-join x xs, h.0), flush_all-size hash_text limit gs h.1)

-- The text of a chunk has at most the limit on a segment where nothing is carried over, and with an
-- overlap at most the overlap and twice that limit.
pub chunk_markdown_size :
    (hash_text : Text → Text) (content : Text) (cfg : ChunkingConfig)
    → All
        (λ c. length c.text < chunk_limit (max_chars_of cfg) (cfg.overlap * 4))
        (chunk_markdown hash_text content cfg)
unfolding chunk_markdown
chunk_markdown_size hash_text content cfg = flush_all-size hash_text _ (groups content cfg) (
    group_loop-size (max_chars_of cfg) (cfg.overlap * 4) [] 0
      (entries (max_chars_of cfg) 1 (split_lines content)) tt
      (IsShort-entries (max_chars_of cfg) 1 (split_lines content)) refl (omega arith))
