-- ===== src/Memory/Hybrid/Tokens.antt =====
-- internal/hivemind/service/plugin/builtin/memory-core/internal/hybrid/hybrid.go: the tokens of a query.
use mathlib.Core.List.{append-nil, append_assoc}
use echoryn.Prelude.{
  Text, ℕ, All, ◌≤◌, ◌≡◌, ◌≢◌, ◌⊎◌, ◌++◌, refl, sym, ap, ◌∙◌, true, false, Bool-cases, inl, inr,
  List, [], ◌∷◌, arith,
}
use echoryn.Memory.Hybrid.{is_word, tokens}

-- A letter, a digit or `_`.
abbrev pub IsWord : ℕ → Type 0
IsWord c =
    ((b'A' ≤ c) × (c ≤ b'Z')) ⊎ ((b'a' ≤ c) × (c ≤ b'z')) ⊎ ((b'0' ≤ c) × (c ≤ b'9')) ⊎ (c ≡ b'_')

is_word_sound : (c : ℕ) → is_word c ≡ true → IsWord c
unfolding is_word
is_word_sound c h = ground arith

is_word_complete : (c : ℕ) → is_word c ≡ false → ¬ IsWord c
unfolding is_word
is_word_complete c h = λ w. ground arith

-- The text ends, or goes on with a character that is no part of a token.
abbrev pub IsBreak : Text → Type 0
IsBreak [] = Unit
IsBreak (c ∷ cs) = ¬ IsWord c

-- The tokens of a text: between them, before and after stand characters that are no part of a token; a token is
-- not empty, has only characters that are, and goes on as far as there are any.
abbrev pub IsCut : List Text → Text → Type 0
IsCut [] raw = All (λ c. ¬ IsWord c) raw
IsCut (t ∷ ts) raw =
    (gap : Text) × (rest : Text) × (raw ≡ gap ++ (t ++ rest))
    × All (λ c. ¬ IsWord c) gap
    × (t ≢ [])
    × All IsWord t
    × IsBreak rest
    × IsCut ts rest

-- What the rest of a text adds to the token `t` that is being read, and the tokens after it.
abbrev Continued : Text → Text → Type 0
Continued t raw =
    (w : Text) × (rest : Text) × (ts : List Text) × (tokens t raw ≡ (t ++ w) ∷ ts)
    × (raw ≡ w ++ rest)
    × All IsWord w
    × IsBreak rest
    × IsCut ts rest

skip-IsCut : (c : ℕ) (ts : List Text) (raw : Text) → ¬ IsWord c → IsCut ts raw → IsCut ts (c ∷ raw)
skip-IsCut c [] raw h cut = (h, cut)
skip-IsCut c (t ∷ ts) raw h (gap, rest, e, outside, full, inside, stop, more) =
    (c ∷ gap, rest, ap (◌∷◌ c) e, (h, outside), full, inside, stop, more)

tokens_step :
    (raw : Text) → IsCut (tokens [] raw) raw × ((d : ℕ) (ds : Text) → Continued (d ∷ ds) raw)
unfolding tokens
tokens_step [] =
    (tt, λ d ds. ([], [], [], ap (λ t. t ∷ []) (sym (append-nil (d ∷ ds))), refl, tt, tt, tt))
tokens_step (c ∷ cs) =
    let (cut, continue) = tokens_step cs in
    elim (Bool-cases (is_word c)) [
      | inl e ↦
          let it = is_word_sound c e in
          let (w, rest, ts, read, whole, inside, stop, more) = continue c [] in
          (
            rw (tokens, e, read)
                ([], rest, ap (◌∷◌ c) whole, tt, λ bad. cc, (it, inside), stop, more),
            λ d ds.
                let (w', rest', ts', read', whole', inside', stop', more') =
                  continue d (ds ++ (c ∷ [])) in
                (
                  c ∷ w',
                  rest',
                  ts',
                  rw (tokens, e) (read' ∙ ap (λ t. t ∷ ts') (append_assoc (d ∷ ds) (c ∷ []) w')),
                  ap (◌∷◌ c) whole',
                  (it, inside'),
                  stop',
                  more',
                ),
          )
      | inr e ↦
          let it = is_word_complete c e in
          let skipped = skip-IsCut c (tokens [] cs) cs it cut in
          (
            rw (tokens, e) skipped,
            λ d ds. (
              [],
              c ∷ cs,
              tokens [] cs,
              rw (tokens, e) (ap (λ t. t ∷ tokens [] cs) (sym (append-nil (d ∷ ds)))),
              refl,
              tt,
              it,
              skipped,
            ),
          )
    ]

-- The tokens of a query are its runs of letters, digits and `_`, in order, each as long as it can be, and nothing
-- else of it; so no quote stands in a token.
pub tokens_correct : (raw : Text) → IsCut (tokens [] raw) raw
tokens_correct raw = (tokens_step raw).0
