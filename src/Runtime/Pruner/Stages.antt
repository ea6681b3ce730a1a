-- ===== src/Runtime/Pruner/Stages.antt =====
-- internal/hivemind/service/agents/domain/service/runtime/context_pruner.go: the two loops as maps
-- over the messages before the boundary, and the size of what a soft trim writes.
use echoryn.Prelude.{
  Text, codes, length, length-append, length-take, length-drop, take, drop, keep, map, decimal,
  length-decimal_pos, ℕ, zero, suc, ◌+◌, ◌-◌, ◌≤◌, ◌<◌, ◌≡◌, ◌++◌, refl, ap, List, [], ◌∷◌,
  if◌then◌else◌, arith, Bool-cases, inl, inr,
}
use echoryn.Runtime.Message.{SchemaMessage}
use echoryn.Runtime.Pruner.{
  PrunerConfig, soft_trimmed_content, soft_trims, apply_soft_trim, placeholder, hard_clears,
  apply_hard_clear,
}

-- What each stage makes of one message.
abbrev pub soft_trim : PrunerConfig → SchemaMessage → SchemaMessage
soft_trim c m =
    if soft_trims c m then record m { content = soft_trimmed_content c m.content } else m

abbrev pub hard_clear : SchemaMessage → SchemaMessage
hard_clear m = if hard_clears m then record m { content = placeholder } else m

-- applySoftTrim trims the messages before the boundary that are long tool results, each by itself,
-- and counts them.
pub apply_soft_trim-map :
    (c : PrunerConfig) (ms : List SchemaMessage) (n : ℕ)
    → (((apply_soft_trim c ms n).0 ≡ map (soft_trim c) (take n ms) ++ drop n ms))
      × ((apply_soft_trim c ms n).1 ≡ length (keep (soft_trims c) (take n ms)))
unfolding apply_soft_trim
apply_soft_trim-map c ms zero = (refl, refl)
apply_soft_trim-map c [] (suc n) = (refl, refl)
apply_soft_trim-map c (m ∷ ms) (suc n) =
    let ih = apply_soft_trim-map c ms n in
    elim (Bool-cases (soft_trims c m)) [
      | inl e ↦ rw e (cc ih.0, omega (arith, ih.1))
      | inr e ↦ rw e (cc ih.0, ih.1)
    ]

-- applyHardClear does so with the tool results that are not cleared yet.
pub apply_hard_clear-map :
    (ms : List SchemaMessage) (n : ℕ)
    → ((apply_hard_clear ms n).0 ≡ map hard_clear (take n ms) ++ drop n ms)
      × ((apply_hard_clear ms n).1 ≡ length (keep hard_clears (take n ms)))
unfolding apply_hard_clear
apply_hard_clear-map ms zero = (refl, refl)
apply_hard_clear-map [] (suc n) = (refl, refl)
apply_hard_clear-map (m ∷ ms) (suc n) =
    let ih = apply_hard_clear-map ms n in
    elim (Bool-cases (hard_clears m)) [
      | inl e ↦ rw e (cc ih.0, omega (arith, ih.1))
      | inr e ↦ rw e (cc ih.0, ih.1)
    ]

take-append_take : (n : ℕ) (t rest : Text) → n ≤ length t → take n (take n t ++ rest) ≡ take n t
take-append_take zero t rest h = refl
take-append_take (suc n) [] rest h = absurd (omega arith)
take-append_take (suc n) (x ∷ t) rest h = ap (◌∷◌ x) (take-append_take n t rest (omega arith))

-- A soft trim keeps the head and the tail, with a note between them.
length-soft_trimmed_content :
    (c : PrunerConfig) (t : Text)
    → c.soft_trim_head_chars + c.soft_trim_tail_chars < length t
    → length (soft_trimmed_content c t)
      ≡ c.soft_trim_head_chars
        + c.soft_trim_tail_chars
        + length (decimal (length t - (c.soft_trim_head_chars + c.soft_trim_tail_chars)))
        + 35
unfolding soft_trimmed_content
length-soft_trimmed_content c t h =
    let head = take c.soft_trim_head_chars t in
    let digits = decimal (length t - (c.soft_trim_head_chars + c.soft_trim_tail_chars)) in
    let tail = drop (length t - c.soft_trim_tail_chars) t in
    omega (
      arith,
      length-append head
          (codes "\n\n... [" ++ (digits ++ (codes " characters truncated] ...\n\n" ++ tail))),
      length-append digits (codes " characters truncated] ...\n\n" ++ tail),
      length-take c.soft_trim_head_chars t,
      length-drop (length t - c.soft_trim_tail_chars) t,
    )

soft_trimmed_content_head :
    (c : PrunerConfig) (t : Text)
    → c.soft_trim_head_chars + c.soft_trim_tail_chars < length t
    → take c.soft_trim_head_chars (soft_trimmed_content c t) ≡ take c.soft_trim_head_chars t
unfolding soft_trimmed_content
soft_trimmed_content_head c t h = take-append_take c.soft_trim_head_chars t _ (omega arith)

-- A soft trim keeps the head of the content. A content that exceeds the head and the tail by at most
-- 35 code points becomes longer, and one that exceeds them by 35 and its digits or more does not.
pub soft_trimmed_content_size :
    (c : PrunerConfig) (t : Text)
    → c.soft_trim_head_chars + c.soft_trim_tail_chars < length t
    → let over = length t - (c.soft_trim_head_chars + c.soft_trim_tail_chars) in
      (take c.soft_trim_head_chars (soft_trimmed_content c t) ≡ take c.soft_trim_head_chars t)
      × (over ≤ 35 → length t < length (soft_trimmed_content c t))
      × (35 + length (decimal over) ≤ over → length (soft_trimmed_content c t) ≤ length t)
soft_trimmed_content_size c t h =
    let size = length-soft_trimmed_content c t h in
    let digits =
      length-decimal_pos (length t - (c.soft_trim_head_chars + c.soft_trim_tail_chars)) in
    (soft_trimmed_content_head c t h, λ k. omega (arith, size, digits), λ k. omega (arith, size))
