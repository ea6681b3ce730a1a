-- ===== src/Runtime/Compaction/Split.antt =====
-- internal/hivemind/service/agents/domain/service/runtime/compaction.go: findCompactionSplitPoint.
use echoryn.Prelude.{
  length, get_elem?, drop, ℕ, zero, suc, ◌+◌, ◌≤◌, ◌<◌, ◌≡◌, ◌⊎◌, inl, inr, refl, Option, none,
  some, List, [], ◌∷◌, if◌then◌else◌, leb, arith, Bool-cases, Option-cases,
}
use echoryn.Runtime.Message.{is_user, Message}
use echoryn.Runtime.Compaction.{split_loop, find_compaction_split_point}

-- The number of user messages of a list: its turns.
unfoldable pub turns : List Message → ℕ
turns [] = 0
turns (m ∷ ms) = (if is_user m then 1 else 0) + turns ms

turns-drop :
    (i : ℕ) (ms : List Message) (m : Message)
    → get_elem? ms i ≡ some m
    → turns (drop i ms) ≡ (if is_user m then 1 else 0) + turns (drop (suc i) ms)
unfolding turns
turns-drop i [] m e = cc
turns-drop zero (x ∷ ms) m e = ground arith
turns-drop (suc i) (x ∷ ms) m e = turns-drop i ms m e

turns-drop_all : (ms : List Message) → turns (drop (length ms) ms) ≡ 0
unfolding turns
turns-drop_all [] = refl
turns-drop_all (m ∷ ms) = turns-drop_all ms

elem-lt : (xs : List Message) (i : ℕ) → i < length xs → (a : Message) × (get_elem? xs i ≡ some a)
elem-lt [] i h = absurd (omega arith)
elem-lt (x ∷ xs) zero h = (x, refl)
elem-lt (x ∷ xs) (suc i) h = elem-lt xs i (omega arith)

-- What the loop returns: a user message with `keep` turns from it on, or nothing for want of turns.
abbrev Splits : ℕ → List Message → Option ℕ → Type 0
Splits keep ms none = turns ms < keep
Splits keep ms (some i) = (i < length ms) × (turns (drop i ms) ≡ keep)

split_loop-Splits :
    (keep : ℕ) (ms : List Message) (i count : ℕ)
    → i ≤ length ms
    → count < keep
    → turns (drop i ms) ≡ count
    → Splits keep ms (split_loop keep ms i count)
unfolding split_loop
split_loop-Splits keep ms zero count h k e = omega arith
split_loop-Splits keep ms (suc i) count h k e =
    let (m, at) = elem-lt ms i (omega arith) in
    let here = turns-drop i ms m at in
    elim (Bool-cases (is_user m)) [
      | inl by_user ↦
          rw (at, by_user)
            (elim (Bool-cases (leb keep (count + 1))) [
              | inl full ↦ rw full (omega arith, ground arith)
              | inr room ↦ rw room (
                  split_loop-Splits keep ms i (count + 1) (omega arith) (ground arith)
                    (ground arith))
            ])
      | inr by_other ↦
          rw (at, by_other) (split_loop-Splits keep ms i count (omega arith) k (ground arith))
    ]

-- With a positive `keep`, the split leaves at least one message, and either keeps exactly the last
-- `keep` turns, or there are fewer turns and only the last message is kept.
pub find_compaction_split_point_correct :
    (keep : ℕ) (ms : List Message)
    → 0 < keep
    → 0 < length ms
    → let i = find_compaction_split_point keep ms in
      (i < length ms) × ((turns (drop i ms) ≡ keep) ⊎ ((turns ms < keep) × (i + 1 ≡ length ms)))
unfolding find_compaction_split_point
find_compaction_split_point_correct keep ms h n =
    let loop = split_loop-Splits keep ms (length ms) 0 (omega arith) h (turns-drop_all ms) in
    elim (Option-cases (split_loop keep ms (length ms) 0)) [
      | inl e ↦
          let few : turns ms < keep = rw e at loop in
          rw (e, find_compaction_split_point) (ground arith, inr (few, ground arith))
      | inr (i, e) ↦
          let found : (i < length ms) × (turns (drop i ms) ≡ keep) = rw e at loop in
          rw (e, find_compaction_split_point) (found.0, inl found.1)
    ]
