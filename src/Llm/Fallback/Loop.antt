-- ===== src/Llm/Fallback/Loop.antt =====
-- internal/hivemind/service/llm/domain/service/model_fallback.go: the loop of RunWithFallback, by
-- induction on the candidates.
use mathlib.Core.Path.{subst}
use mathlib.Core.Option.{some-injective}
use mathlib.Core.List.{map-append}
use echoryn.Prelude.{
  All, keep, take, length, ℕ, suc, ◌+◌, ◌-◌, ◌≤◌, ◌<◌, ◌≡◌, ◌++◌, refl, ap, Bool, true, false, not,
  Option, none, some, List, [], ◌∷◌, map, leb, Bool-cases, inl, inr, arith,
}
use echoryn.Llm.Fallback.{
  ModelRef, FallbackAttempt, Env, FallbackRun, stop, record_attempt, fallback_loop, ErrorCall,
}
use echoryn.Llm.Fallback.Fates
use echoryn.Llm.Fallback.Fates.{
  Fate, passed, answered, aborted, Fate-of, try-Passed, try-Answers, try-Aborts, tried,
}

abbrev pub refs_of : List FallbackAttempt → List ModelRef
refs_of = map (λ a. a.ref)

module _ {M V : Type 0} (env : Env M V) (skip : Bool) where
  abbrev pub Passed : ModelRef → Type 0
  Passed = Fates.Passed env skip

  abbrev pub Answers : ModelRef → V → Type 0
  Answers = Fates.Answers env skip

  abbrev pub Aborts : ModelRef → Type 0
  Aborts = Fates.Aborts env skip

  -- Some candidate among the first `room` answers with `v`, and all before it are passed.
  abbrev pub Found : List ModelRef → ℕ → V → ModelRef → Type 0
  Found refs room v ref =
      (pre : List ModelRef) × (post : List ModelRef) × (refs ≡ pre ++ (ref ∷ post))
      × (length pre < room)
      × All Passed pre
      × Answers ref v

  Found-cons :
      (r : ModelRef) (refs : List ModelRef) (room : ℕ) (v : V) (ref : ModelRef)
      → Passed r
      → Found refs room v ref
      → Found (r ∷ refs) (suc room) v ref
  Found-cons r refs room v ref p (pre, post, e, h, ps, a) =
      (r ∷ pre, post, ap (◌∷◌ r) e, omega arith, (p, ps), a)

  pub Found-room :
      (refs : List ModelRef) (room room' : ℕ) (v : V) (ref : ModelRef)
      → room ≤ room'
      → Found refs room v ref
      → Found refs room' v ref
  Found-room refs room room' v ref le (pre, post, e, h, ps, a) = (pre, post, e, omega arith, ps, a)

  Found-here :
      (r : ModelRef) (refs : List ModelRef) (room : ℕ) (v' v : V) (ref : ModelRef)
      → 0 < room
      → Answers r v'
      → ◌≡◌ {A = Option (V × ModelRef)} (some (v', r)) (some (v, ref))
      → Found (r ∷ refs) room v ref
  Found-here r refs room v' v ref h p e =
      let same_pair : ◌≡◌ {A = V × ModelRef} (v', r) (v, ref) = some-injective _ _ e in
      ([], refs, ap (λ w. w.1 ∷ refs) same_pair, h, tt, subst (λ w. Answers w.1 w.0) same_pair p)

  module _ (max total : ℕ) where
    abbrev pub loop : ℕ → List ModelRef → FallbackRun V
    loop = fallback_loop env skip max total

    pub loop_sound :
        (i : ℕ) (refs : List ModelRef) (v : V) (ref : ModelRef)
        → (loop i refs).result.winner ≡ some (v, ref)
        → Found refs (max - i) v ref
    unfolding fallback_loop
    loop_sound i [] v ref h = cc
    loop_sound i (r ∷ refs) v ref h = elim (Bool-cases (leb max i)) [
      | inl full ↦ cc (rw full at h)
      | inr room ↦
          let h' : (tried env skip max total i r (loop (suc i) refs)).result.winner
              ≡ some (v, ref) =
            rw room at h in
          elim (Fate-of env skip r) [
            | passed p ↦
                let (a, calls, same_ref, told, e) =
                  try-Passed env skip max total i r (loop (suc i) refs) p in
                Found-room (r ∷ refs) (suc (max - suc i)) (max - i) v ref (ground arith) (
                  Found-cons r refs (max - suc i) v ref p
                    (loop_sound (suc i) refs v ref (rw e at h')))
            | answered v' p ↦
                let e = try-Answers env skip max total i r (loop (suc i) refs) v' p in
                let won : some (v', r) ≡ some (v, ref) = rw e at h' in
                Found-here r refs (max - i) v' v ref (ground arith) p won
            | aborted p ↦
                let (a, calls, same_ref, told, e) =
                  try-Aborts env skip max total i r (loop (suc i) refs) p in
                cc (rw e at h')
          ]
    ]

    module _ (i : ℕ) (r : ModelRef) (refs : List ModelRef) (room : leb max i ≡ false) where
      loop-Passed :
          Passed r
          → (a : FallbackAttempt) × (calls : List ErrorCall) × (a.ref ≡ r)
            × (map (λ c. c.0) calls ≡ keep (λ b. not b.skipped) (a ∷ []))
            × (loop i (r ∷ refs) ≡ record_attempt a calls (loop (suc i) refs))
      unfolding fallback_loop
      loop-Passed p =
          let (a, calls, same_ref, told, e) =
            try-Passed env skip max total i r (loop (suc i) refs) p in
          (a, calls, same_ref, told, rw room e)

      loop-Aborts :
          Aborts r
          → (a : FallbackAttempt) × (calls : List ErrorCall) × (a.ref ≡ r)
            × (map (λ c. c.0) calls ≡ keep (λ b. not b.skipped) (a ∷ []))
            × (loop i (r ∷ refs) ≡ record_attempt a calls (stop none))
      unfolding fallback_loop
      loop-Aborts p =
          let (a, calls, same_ref, told, e) =
            try-Aborts env skip max total i r (loop (suc i) refs) p in
          (a, calls, same_ref, told, rw room e)

      loop-Answers : (v : V) → Answers r v → loop i (r ∷ refs) ≡ stop (some (v, r))
      unfolding fallback_loop
      loop-Answers v p = rw room (try-Answers env skip max total i r (loop (suc i) refs) v p)

    loop-nil : (i : ℕ) → loop i [] ≡ stop none
    unfolding fallback_loop
    loop-nil i = refl

    loop-full : (i : ℕ) (refs : List ModelRef) → leb max i ≡ true → loop i refs ≡ stop none
    unfolding fallback_loop
    loop-full i [] full = refl
    loop-full i (r ∷ refs) full = rw full

    pub loop_complete :
        (i : ℕ) (pre post : List ModelRef) (ref : ModelRef) (v : V)
        → length pre + i < max
        → All Passed pre
        → Answers ref v
        → ((loop i (pre ++ (ref ∷ post))).result.winner ≡ some (v, ref))
          × (refs_of (loop i (pre ++ (ref ∷ post))).result.attempts ≡ pre)
    loop_complete i [] post ref v h ps a =
        let e = loop-Answers i ref post (ground arith) v a in (rw e, rw e)
    loop_complete i (r ∷ pre) post ref v h ps a =
        let (at, calls, same_ref, told, e) =
          loop-Passed i r (pre ++ (ref ∷ post)) (ground arith) ps.0 in
        let ih = loop_complete (suc i) pre post ref v (omega arith) ps.1 a in
        (rw e ih.0, rw e (cc (ih.1, same_ref)))

    pub loop_stops :
        (i : ℕ) (pre post : List ModelRef) (ref : ModelRef)
        → length pre + i < max
        → All Passed pre
        → Aborts ref
        → ((loop i (pre ++ (ref ∷ post))).result.winner ≡ none)
          × (refs_of (loop i (pre ++ (ref ∷ post))).result.attempts ≡ pre ++ (ref ∷ []))
    loop_stops i [] post ref h ps a =
        let (at, calls, same_ref, told, e) = loop-Aborts i ref post (ground arith) a in
        (rw e, rw e (cc same_ref))
    loop_stops i (r ∷ pre) post ref h ps a =
        let (at, calls, same_ref, told, e) =
          loop-Passed i r (pre ++ (ref ∷ post)) (ground arith) ps.0 in
        let ih = loop_stops (suc i) pre post ref (omega arith) ps.1 a in
        (rw e ih.0, rw e (cc (ih.1, same_ref)))

    -- The attempts are a prefix of the candidates within the room, and onError is told of those
    -- that were not skipped.
    abbrev pub Logged : ℕ → List ModelRef → FallbackRun V → Type 0
    Logged i refs r =
        (refs_of r.result.attempts ≡ take (length r.result.attempts) refs)
        × (length r.result.attempts ≤ max - i)
        × (map (λ c. c.0) r.calls ≡ keep (λ b. not b.skipped) r.result.attempts)

    stop-Logged :
        (i : ℕ) (refs : List ModelRef) (w : Option (V × ModelRef)) → Logged i refs (stop w)
    stop-Logged i refs w = (refl, omega arith, refl)

    record_attempt-Logged :
        (i : ℕ) (ref : ModelRef) (refs : List ModelRef) (r : FallbackRun V) (a : FallbackAttempt)
        (calls : List ErrorCall)
        → leb max i ≡ false
        → a.ref ≡ ref
        → map (λ c. c.0) calls ≡ keep (λ b. not b.skipped) (a ∷ [])
        → Logged (suc i) refs r
        → Logged i (ref ∷ refs) (record_attempt a calls r)
    record_attempt-Logged i ref refs r a calls room same_ref told log = (
      cc (same_ref, log.0),
      ground (arith, log.1),
      rw (map-append (λ (c : ErrorCall). c.0) calls r.calls, told, log.2) (ground arith),
    )

    pub loop-Logged : (i : ℕ) (refs : List ModelRef) → Logged i refs (loop i refs)
    loop-Logged i [] = let e = loop-nil i in rw e (stop-Logged i [] none)
    loop-Logged i (r ∷ refs) = elim (Bool-cases (leb max i)) [
      | inl full ↦ rw (loop-full i (r ∷ refs) full) (stop-Logged i (r ∷ refs) none)
      | inr room ↦ elim (Fate-of env skip r) [
        | passed p ↦
            let (a, calls, same_ref, told, e) = loop-Passed i r refs room p in
            rw e (
              record_attempt-Logged i r refs (loop (suc i) refs) a calls room same_ref told
                (loop-Logged (suc i) refs))
        | answered v p ↦
            rw (loop-Answers i r refs room v p) (stop-Logged i (r ∷ refs) (some (v, r)))
        | aborted p ↦
            let (a, calls, same_ref, told, e) = loop-Aborts i r refs room p in
            rw e (
              record_attempt-Logged i r refs (stop none) a calls room same_ref told
                (stop-Logged (suc i) refs none))
      ]
    ]
