-- ===== src/Llm/Failover/Rules.antt =====
-- internal/hivemind/service/llm/domain/entity/failover.go: what the classification promises.
use echoryn.Prelude.{
  List, [], ◌∷◌, Text, to_lower, lower_rune, contains, contains-append, ℕ, ◌≡◌, refl, ap, ◌++◌,
  true, false, some, arith, get_elem?, ◌↔◌, zero, suc,
}
use echoryn.Llm.Failover.Patterns.{timeout_patterns}
use echoryn.Llm.Failover.{
  FailoverReason, unknown, timeout, format, is_retryable, should_failover, classify_from_message,
  matches,
}

lower_rune_idem : (c : ℕ) → lower_rune (lower_rune c) ≡ lower_rune c
unfolding lower_rune
lower_rune_idem c = ground arith

to_lower_idem : (t : Text) → to_lower (to_lower t) ≡ to_lower t
to_lower_idem [] = refl
to_lower_idem (c ∷ t) = ground (arith, lower_rune_idem c, to_lower_idem t)

map-append_lower : (s t : Text) → to_lower (s ++ t) ≡ to_lower s ++ to_lower t
map-append_lower [] t = refl
map-append_lower (c ∷ s) t = ap (◌∷◌ (lower_rune c)) (map-append_lower s t)

matches_of_contains :
    (ps : List Text) (i : ℕ) (p t : Text)
    → get_elem? ps i ≡ some p
    → contains p t ≡ true
    → matches ps t ≡ true
matches_of_contains [] i p t e h = cc
matches_of_contains (q ∷ ps) zero p t e h = ground arith
matches_of_contains (q ∷ ps) (suc i) p t e h = ground (arith, matches_of_contains ps i p t)

-- A timeout pattern, in letters of any case and wherever it stands, makes the message a timeout,
-- whatever else the message says.
pub classify_from_message_timeout :
    (i : ℕ) (p s m t : Text)
    → get_elem? timeout_patterns i ≡ some p
    → to_lower m ≡ p
    → classify_from_message (s ++ (m ++ t)) ≡ timeout
unfolding classify_from_message
classify_from_message_timeout i p s m t e l =
    let found : contains p (to_lower (s ++ (m ++ t))) ≡ true =
      rw (map-append_lower s (m ++ t), map-append_lower m t, l)
        (contains-append (to_lower s) p (to_lower t)) in
    rw (matches_of_contains timeout_patterns i p (to_lower (s ++ (m ++ t))) e found)

-- Only a format error ends the search for a model, and an error that may pass never does.
pub should_failover_iff :
    (r : FailoverReason)
    → ((should_failover r ≡ false) ↔ (r ≡ format))
      × (is_retryable r ≡ true → should_failover r ≡ true)
unfolding should_failover is_retryable
should_failover_iff unknown = ground arith
should_failover_iff _ = ground arith
