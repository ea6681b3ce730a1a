-- ===== src/Runtime/Context/Turns.antt =====
-- internal/hivemind/service/agents/domain/service/runtime/context_builder.go: which part of a history
-- limitHistoryTurns keeps.
use echoryn.Prelude.{
  length, get_elem?, take, drop, take-append-drop, ℕ, zero, suc, ◌≤◌, ◌≡◌, ◌≢◌, ◌⊎◌, ◌++◌, refl,
  inl, inr, Bool, true, false, Bool-cases, some, List, [], ◌∷◌, ◌==◌, arith, tally, backward,
  backward-Stops, Stops,
}
use echoryn.Runtime.Message.{Message, is_user}
use echoryn.Runtime.Context.{ContextBuilder, limit_history_turns}

-- A history is `before` and `kept`. A trimmed one keeps exactly as many turns as the limit says, and starts with
-- the first of them; another is whole, and within the limit where there is one.
abbrev pub IsLimited : ℕ → List Message → List Message → Bool → Type 0
IsLimited limit before kept true =
    (before ≢ [])
    × ((m : Message) × (rest : List Message) × (kept ≡ m ∷ rest) × (is_user m ≡ true))
    × (tally is_user kept ≡ limit)
IsLimited limit before kept false = (before ≡ []) × ((limit ≡ 0) ⊎ (tally is_user kept ≤ limit))

drop-head :
    {A : Type 0} (i : ℕ) (xs : List A) (x : A)
    → get_elem? xs i ≡ some x
    → (rest : List A) × (drop i xs ≡ x ∷ rest)
drop-head i [] x e = absurd cc
drop-head zero (y ∷ xs) x e = (xs, cc)
drop-head (suc i) (y ∷ xs) x e = drop-head i xs x e

take-nonempty :
    {A : Type 0} (i : ℕ) (xs : List A) → (i == 0) ≡ false → i ≤ length xs → take i xs ≢ []
take-nonempty zero xs e h = absurd (ground arith)
take-nonempty (suc i) [] e h = absurd (omega arith)
take-nonempty (suc i) (x ∷ xs) e h = λ same_list. cc

-- The same of a pair of a history and whether it is trimmed, for the whole history `ms`.
abbrev pub Kept : ℕ → List Message → List Message × Bool → Type 0
Kept limit ms (kept, trimmed) =
    (before : List Message) × (before ++ kept ≡ ms) × IsLimited limit before kept trimmed

stopped_at_start :
    (limit b : ℕ) (ms : List Message) → b ≡ 0 → Stops is_user limit ms b → tally is_user ms ≤ limit
stopped_at_start limit b ms start (within, inl (x, at, mine, enough)) =
    let enough' : tally is_user ms ≡ limit = rw start at enough in omega arith
stopped_at_start limit b ms start (within, inr (e, fewer)) = omega arith

stopped_later :
    (limit b : ℕ) (ms : List Message)
    → (b == 0) ≡ false
    → Stops is_user limit ms b
    → IsLimited limit (take b ms) (drop b ms) true
stopped_later limit b ms later (within, inl (x, at, mine, enough)) =
    let (rest, e) = drop-head b ms x at in
    (take-nonempty b ms later within, (x, rest, e, mine), enough)
stopped_later limit b ms later (within, inr (e, fewer)) = absurd (ground arith)

-- The history that is kept is the end of the history. When it is trimmed, something is left out, what is kept
-- starts with a message of the user, and has exactly as many of them as the limit. Otherwise nothing is left
-- out, and there is no limit or the user's messages are not more.
pub limit_history_turns_correct :
    (cb : ContextBuilder) (ms : List Message)
    → Kept cb.max_history_turns ms (limit_history_turns cb ms)
unfolding limit_history_turns
limit_history_turns_correct cb ms =
    let limit = cb.max_history_turns in
    let cutoff = backward is_user limit ms (length ms) 0 in
    elim (Bool-cases (limit == 0)) [
      | inl none_set ↦ rw none_set ([], refl, (refl, inl (ground arith)))
      | inr is_set ↦
          let stop = backward-Stops is_user limit ms (ground arith) in
          elim (Bool-cases (cutoff == 0)) [
            | inl at_start ↦
                rw (is_set, at_start)
                  ([], refl, (refl, inr (stopped_at_start limit cutoff ms (ground arith) stop)))
            | inr later ↦
                rw (is_set, later)
                  (
                    take cutoff ms,
                    take-append-drop cutoff ms,
                    stopped_later limit cutoff ms later stop,
                  )
          ]
    ]
