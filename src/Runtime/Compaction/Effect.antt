-- ===== src/Runtime/Compaction/Effect.antt =====
-- internal/hivemind/service/agents/domain/service/runtime/compaction.go: what Compact does to the
-- session, and when summarize succeeds.
use echoryn.Prelude.{
  Text, none, ◌++◌, take-append-drop, length-take, length, length-drop, drop, take, ℕ, zero, suc,
  ◌+◌, ◌*◌, ◌/◌, ◌<◌, ◌≡◌, ◌⊎◌, ◌∙◌, inl, inr, refl, sym, ap, Bool, true, false, Option, some, List,
  [], ◌∷◌, if◌then◌else◌, leb, ◌==◌, arith, Bool-cases, length-take,
}
use echoryn.Runtime.Message.{Message, to_schema_messages}
use echoryn.Runtime.Tokens.{TokenEstimator, estimate_messages}
use echoryn.Runtime.Window.{ContextWindowInfo}
use echoryn.Runtime.Session.{
  Session, IsWithin, active_messages, active_messages-drop, apply_compaction,
}
use echoryn.Runtime.Compaction.{
  Compactor, ChatModel, CompactResult, compacted, no_messages, not_enough_messages,
  summarization_failed, compact, find_compaction_split_point, summarize, at_least,
}
use echoryn.Runtime.Compaction.Summary.{IsSummary, IsUnanswered, Summarized, summarize-Summarized}
use echoryn.Runtime.Compaction.Split.{turns, find_compaction_split_point_correct}

drop-nil : (n : ℕ) → drop {A = Message} n [] ≡ []
drop-nil zero = refl
drop-nil (suc n) = refl

drop-drop : (m n : ℕ) (xs : List Message) → drop n (drop m xs) ≡ drop (m + n) xs
drop-drop zero n xs = ap (λ k. drop k xs) {x = n} {y = zero + n} (omega arith)
drop-drop (suc m) n [] = drop-nil n ∙ sym (drop-nil (suc m + n))
drop-drop (suc m) n (x ∷ xs) =
    drop-drop m n xs ∙ ap (λ k. drop k (x ∷ xs)) {x = suc (m + n)} {y = suc m + n} (omega arith)

length-take_within : (n : ℕ) (xs : List Message) → n < length xs → length (take n xs) ≡ n
length-take_within n xs h = omega (arith, h, length-take n xs)

-- What Compact may do to the session `s`, with the answers of the model.
abbrev pub Effect :
    Compactor → ChatModel → ContextWindowInfo → Session → ℕ → Session × CompactResult → Type 0
Effect c model w s now (s', compacted summary) =
    (replaced : List Message) × IsSummary c.estimator model w (to_schema_messages replaced)
      s.compaction_summary summary
    × (0 < length replaced)
    × (0 < length (active_messages s'))
    × (replaced ++ active_messages s' ≡ active_messages s)
    × ((turns (active_messages s') ≡ c.keep_recent_turns)
        ⊎ ((turns (active_messages s) < c.keep_recent_turns) × (length (active_messages s') ≡ 1)))
    × (s' ≡ record s {
      compaction_summary = summary;
      compaction_count = s.compaction_count + 1;
      first_kept_index = s.first_kept_index + length replaced;
      updated_at = now;
    })
    × IsWithin s'
Effect c model w s now (s', no_messages) = (s' ≡ s) × (active_messages s ≡ [])
Effect c model w s now (s', not_enough_messages) =
    (s' ≡ s)
    × ((turns (active_messages s) ≡ c.keep_recent_turns) ⊎ (length (active_messages s) ≡ 1))
Effect c model w s now (s', summarization_failed) =
    (s' ≡ s)
    × (replaced kept : List Message) × (replaced ++ kept ≡ active_messages s)
    × (0 < length replaced)
    × IsUnanswered c.estimator model w (to_schema_messages replaced) s.compaction_summary

module _ (c : Compactor) (model : ChatModel) (w : ContextWindowInfo) (s : Session) (now : ℕ) where
  -- What the split point is known to be.
  abbrev IsCut : ℕ → Type 0
  IsCut split =
      (split < length (active_messages s))
      × ((turns (drop split (active_messages s)) ≡ c.keep_recent_turns)
          ⊎ ((turns (active_messages s) < c.keep_recent_turns)
              × (split + 1 ≡ length (active_messages s))))

  kept-turns :
      (split : ℕ) (kept : List Message)
      → kept ≡ drop split (active_messages s)
      → IsCut split
      → (turns kept ≡ c.keep_recent_turns)
        ⊎ ((turns (active_messages s) < c.keep_recent_turns) × (length kept ≡ 1))
  kept-turns split kept e (inside, inl exact) = inl (ap turns e ∙ exact)
  kept-turns split kept e (inside, inr (few, last)) =
      inr (few, omega (arith, last, ap length e, length-drop split (active_messages s)))

  summarized-Effect :
      (split : ℕ) (o : Option Text)
      → 0 < split
      → IsCut split
      → Summarized c.estimator model w
          (to_schema_messages (take split (active_messages s)))
          s.compaction_summary
          o
      → Effect c model w s now (elim o [
        | none ↦ (s, summarization_failed)
        | some summary ↦
            (apply_compaction s summary (s.first_kept_index + split) now, compacted summary)
      ])
  unfolding apply_compaction
  summarized-Effect split none p cut answer = (
    refl,
    take split (active_messages s),
    drop split (active_messages s),
    take-append-drop split (active_messages s),
    rw (length-take_within split (active_messages s) cut.0) p,
    answer,
  )
  summarized-Effect split (some summary) p cut answer =
      let active = active_messages-drop s in
      let taken = length-take_within split (active_messages s) cut.0 in
      let after = apply_compaction s summary (s.first_kept_index + split) now in
      let rest : active_messages after ≡ drop split (active_messages s) =
        active_messages-drop after
        ∙ sym (ap (drop split) active ∙ drop-drop s.first_kept_index split s.messages) in
      (
        take split (active_messages s),
        answer,
        rw taken p,
        rw rest (omega (arith, cut.0, length-drop split (active_messages s))),
        rw rest (take-append-drop split (active_messages s)),
        kept-turns split (active_messages after) rest cut,
        rw taken refl,
        omega (arith, cut.0, ap length active, length-drop s.first_kept_index s.messages),
      )

-- Compact, with a positive number of turns to keep, leaves the session alone unless it has a summary of the
-- messages that it replaces, together with the earlier summary: the trimmed answer of the model for all of them
-- where they fit into one chunk, and otherwise what is merged from the answers for the chunks into which they are
-- cut, with a note for each chunk that has none. The replaced messages and those that stay active are the active
-- messages before, in order, and neither part is empty; what stays has exactly the configured number of turns, or
-- is the last message alone where there are fewer turns. A failure of the model on messages that fit into one chunk
-- leaves the session alone, and so does a history with nothing to replace.
pub compact-Effect :
    (c : Compactor) (s : Session) (model : ChatModel) (w : ContextWindowInfo) (now : ℕ)
    → 0 < c.keep_recent_turns
    → Effect c model w s now (compact c s model w now)
unfolding compact
compact-Effect c s model w now h =
    let active = active_messages s in
    let split = find_compaction_split_point c.keep_recent_turns active in
    elim (Bool-cases (length active == 0)) [
      | inl e ↦ rw e (refl, empty_of active e)
      | inr e ↦
          let correct =
            find_compaction_split_point_correct c.keep_recent_turns active h (ground arith) in
          rw e (elim (Bool-cases (split == 0)) [
            | inl z ↦
                let start : split ≡ 0 = ground arith in rw z (refl, whole_of (rw start at correct))
            | inr z ↦ rw z (
                summarized-Effect c model w s now split
                  (summarize c.estimator model (take split active) s.compaction_summary w)
                  (ground arith) correct
                  (summarize-Summarized c.estimator model (take split active) s.compaction_summary
                    w))
          ])
    ]
  where
    empty_of : (ms : List Message) → (length ms == 0) ≡ true → ms ≡ []
    empty_of [] e = refl
    empty_of (m ∷ ms) e = absurd (ground arith)

    whole_of :
        IsCut c model w s now 0
        → (turns (active_messages s) ≡ c.keep_recent_turns) ⊎ (length (active_messages s) ≡ 1)
    whole_of (inside, inl exact) = inl exact
    whole_of (inside, inr (few, last)) = inr (omega (arith, last))

some_else :
    (b : Bool) (o : Option Text) (t : Text)
    → b ≡ false
    → (x : Text) × ((if b then o else some t) ≡ some x)
some_else b o t e = (t, rw e)

-- A history that does not fit into one chunk is always summarized: a chunk that the model fails on
-- is described, and a merge that fails is replaced by the parts.
pub summarize_total :
    (te : TokenEstimator) (model : ChatModel) (ms : List Message) (existing : Text)
    (w : ContextWindowInfo)
    → 2000 < estimate_messages te (to_schema_messages ms)
    → w.usable_tokens * 2 / 5 < estimate_messages te (to_schema_messages ms)
    → (summary : Text) × (summarize te model ms existing w ≡ some summary)
unfolding summarize
summarize_total te model ms existing w low high =
    let long : leb (estimate_messages te (to_schema_messages ms))
          (at_least 2000 (w.usable_tokens * 2 / 5))
        ≡ false =
      ground arith in
    some_else _ _ _ long
