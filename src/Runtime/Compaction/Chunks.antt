-- ===== src/Runtime/Compaction/Chunks.antt =====
-- internal/hivemind/service/agents/domain/service/runtime/compaction.go: splitIntoChunks.
use mathlib.Core.List.{flatten, append_assoc}
use echoryn.Prelude.{
  All, length, length-append, ℕ, ◌+◌, ◌≤◌, ◌<◌, ◌≡◌, ◌++◌, ◌⊎◌, ◌∙◌, inl, inr, refl, ap, false,
  ◌&&◌, not, some, List, [], ◌∷◌, ltb, ◌==◌, suc-==-zero, arith, Bool-cases,
}
use echoryn.Runtime.Message.{SchemaMessage}
use echoryn.Runtime.Tokens.{
  TokenEstimator, estimate_message, estimate_messages, estimate_messages-append,
}
use echoryn.Runtime.Compaction.{chunk_loop, split_into_chunks}

-- A chunk is not empty, and stays within the budget unless it is a single message.
abbrev pub IsChunk : TokenEstimator → ℕ → List SchemaMessage → Type 0
IsChunk te budget chunk =
    (0 < length chunk) × ((estimate_messages te chunk ≤ budget) ⊎ (length chunk ≡ 1))

module _ (te : TokenEstimator) (budget : ℕ) where
  -- The current chunk, which may still be empty.
  record Current (current : List SchemaMessage) (tokens : ℕ) : Type 0 where
    counted : tokens ≡ estimate_messages te current
    fits : (estimate_messages te current ≤ budget) ⊎ (length current ≡ 1)

  tokens-append :
      (current : List SchemaMessage) (m : SchemaMessage)
      → estimate_messages te (current ++ (m ∷ []))
        ≡ estimate_messages te current + estimate_message te (some m)
  unfolding estimate_messages
  tokens-append current m = omega (arith, estimate_messages-append te current (m ∷ []))

  Current-grow :
      (current : List SchemaMessage) (tokens : ℕ) (m : SchemaMessage)
      → Current current tokens
      → (ltb budget (tokens + estimate_message te (some m)) && not (length current == 0)) ≡ false
      → Current (current ++ (m ∷ [])) (tokens + estimate_message te (some m))
  Current-grow current tokens m v h = record {
    counted = omega (arith, v.counted, tokens-append current m);
    fits = ground (arith, v.counted, tokens-append current m, length-append current (m ∷ []));
  }

  Current-one : (m : SchemaMessage) → Current (m ∷ []) (estimate_message te (some m))
  unfolding estimate_messages
  Current-one m = record { counted = omega arith; fits = inr refl }

  chunk_loop-flatten :
      (current : List SchemaMessage) (tokens : ℕ) (ms : List SchemaMessage)
      → flatten (chunk_loop te budget current tokens ms) ≡ current ++ ms
  unfolding chunk_loop flatten
  chunk_loop-flatten [] tokens [] = refl
  chunk_loop-flatten (c ∷ current) tokens [] = rw (suc-==-zero (length current)) refl
  chunk_loop-flatten current tokens (m ∷ ms) =
      elim (Bool-cases
        (ltb budget (tokens + estimate_message te (some m)) && not (length current == 0))) [
          | inl cut ↦
              rw cut
                (ap (◌++◌ current) (chunk_loop-flatten (m ∷ []) (estimate_message te (some m)) ms))
          | inr grow ↦ rw grow (
              chunk_loop-flatten (current ++ (m ∷ [])) (tokens + estimate_message te (some m)) ms
              ∙ append_assoc current (m ∷ []) ms)
        ]

  chunk_loop-IsChunk :
      (current : List SchemaMessage) (tokens : ℕ) (ms : List SchemaMessage)
      → Current current tokens
      → All (IsChunk te budget) (chunk_loop te budget current tokens ms)
  unfolding chunk_loop
  chunk_loop-IsChunk [] tokens [] v = tt
  chunk_loop-IsChunk (c ∷ current) tokens [] v =
      rw (suc-==-zero (length current)) ((omega arith, v.fits), tt)
  chunk_loop-IsChunk current tokens (m ∷ ms) v =
      elim (Bool-cases
        (ltb budget (tokens + estimate_message te (some m)) && not (length current == 0))) [
          | inl cut ↦ rw cut (
            (ground arith, v.fits),
            chunk_loop-IsChunk (m ∷ []) (estimate_message te (some m)) ms (Current-one m),
          )
          | inr grow ↦ rw grow (
              chunk_loop-IsChunk (current ++ (m ∷ [])) (tokens + estimate_message te (some m)) ms
                (Current-grow current tokens m v grow))
        ]

-- The chunks are the messages in order, cut into pieces that are not empty and that stay within the
-- budget unless they hold a single message.
pub split_into_chunks_correct :
    (te : TokenEstimator) (ms : List SchemaMessage) (budget : ℕ)
    → (flatten (split_into_chunks te ms budget) ≡ ms)
      × All (IsChunk te budget) (split_into_chunks te ms budget)
unfolding split_into_chunks estimate_messages
split_into_chunks_correct te ms budget = (
  chunk_loop-flatten te budget [] 0 ms,
  chunk_loop-IsChunk te budget [] 0 ms (record { counted = refl; fits = inl (omega arith) }),
)
