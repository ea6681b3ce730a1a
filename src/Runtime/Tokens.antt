-- ===== src/Runtime/Tokens.antt =====
-- internal/hivemind/service/agents/domain/service/runtime/token_estimator.go.
-- The ratio of characters to tokens is a fraction `num / den` with `0 < den`, where the code has a
-- float; the default 3.5 is 7/2. For a count below 2^50 the float division rounds to the same whole
-- number. A ratio that is not positive has `num` 0.
use mathlib.Core.List.{append-nil}
use native.Mathlib.Nat.{div-lt_iff_lt-mul, lt-mul-div-succ, mul-le-mul_right}
use echoryn.Prelude.{
  Text, length, length-append, is_empty, ℕ, suc, ◌+◌, ◌*◌, ◌/◌, ◌≤◌, ◌<◌, ◌≡◌, ◌++◌, if◌then◌else◌,
  ◌==◌, Option, none, some, List, [], ◌∷◌, arith,
}
use echoryn.Runtime.Message.{SchemaMessage, ToolCall}

pub record Ratio : Type 0 where
  pub num : ℕ
  pub den : ℕ

abbrev pub default_chars_per_token : Ratio
default_chars_per_token = record { num = 7; den = 2 }

abbrev pub per_message_overhead : ℕ
per_message_overhead = 4

pub record TokenEstimator : Type 0 where
  pub chars_per_token : Ratio

unfoldable pub new_token_estimator : Ratio → TokenEstimator
new_token_estimator r = record {
  chars_per_token = if r.num == 0 then default_chars_per_token else r;
}

unfoldable pub estimate_string : TokenEstimator → Text → ℕ
estimate_string te s =
    if is_empty s then 0 else length s * te.chars_per_token.den / te.chars_per_token.num + 1

unfoldable pub estimate_tool_calls : TokenEstimator → List ToolCall → ℕ
estimate_tool_calls te [] = 0
estimate_tool_calls te (tc ∷ tcs) =
    estimate_string te tc.name + estimate_string te tc.arguments + 4 + estimate_tool_calls te tcs

unfoldable pub estimate_message : TokenEstimator → Option SchemaMessage → ℕ
unfolding estimate_tool_calls
estimate_message te none = 0
estimate_message te (some m) =
    per_message_overhead
    + estimate_string te m.content
    + estimate_string te m.name
    + estimate_tool_calls te m.tool_calls

unfoldable pub estimate_messages : TokenEstimator → List SchemaMessage → ℕ
estimate_messages te [] = 0
estimate_messages te (m ∷ ms) = estimate_message te (some m) + estimate_messages te ms

pub estimate_messages-append :
    (te : TokenEstimator) (xs ys : List SchemaMessage)
    → estimate_messages te (xs ++ ys) ≡ estimate_messages te xs + estimate_messages te ys
unfolding estimate_messages
estimate_messages-append te [] ys = omega arith
estimate_messages-append te (x ∷ xs) ys = omega (arith, estimate_messages-append te xs ys)

div-le : (a b n : ℕ) → 0 < n → a ≤ b → a / n ≤ b / n
div-le a b n p h = omega (arith, (div-lt_iff_lt-mul {x = a} {y = b / n + 1} p).1 (upper b n p h))
  where
    upper : (b n : ℕ) → 0 < n → a ≤ b → a < (b / n + 1) * n
    upper b n p h = omega (arith, lt-mul-div-succ b {b = n} p)

div-add : (a b n : ℕ) → 0 < n → (a + b) / n ≤ a / n + b / n + 1
div-add a b n p =
    omega (arith, (div-lt_iff_lt-mul {x = a + b} {y = a / n + b / n + 1 + 1} p).1 upper)
  where
    upper : a + b < (a / n + b / n + 1 + 1) * n
    upper = omega (arith, lt-mul-div-succ a {b = n} p, lt-mul-div-succ b {b = n} p)

-- The estimator has a usable ratio.
abbrev pub IsUsable : TokenEstimator → Type 0
IsUsable te = (0 < te.chars_per_token.num) × (0 < te.chars_per_token.den)

-- Whatever ratio NewTokenEstimator is given, it divides by no zero.
pub new_token_estimator-IsUsable : (r : Ratio) → 0 < r.den → IsUsable (new_token_estimator r)
unfolding new_token_estimator
new_token_estimator-IsUsable r h = ground arith

pub estimate_string_mono :
    (te : TokenEstimator) (s t : Text)
    → IsUsable te
    → length s ≤ length t
    → estimate_string te s ≤ estimate_string te t
unfolding estimate_string
estimate_string_mono te [] t u h = omega arith
estimate_string_mono te (c ∷ s) [] u h = absurd (omega arith)
estimate_string_mono te (c ∷ s) (d ∷ t) u h =
    let num = te.chars_per_token.num in
    let den = te.chars_per_token.den in
    omega (
      arith,
      div-le (suc (length s) * den) (suc (length t) * den) num u.0
          (mul-le-mul_right {m = suc (length s)} {n = suc (length t)} den h),
    )

estimate_string-append :
    (te : TokenEstimator) (s t : Text)
    → IsUsable te
    → estimate_string te (s ++ t) ≤ estimate_string te s + estimate_string te t
unfolding estimate_string
estimate_string-append te [] t u = omega arith
estimate_string-append te (c ∷ s) [] u = rw append-nil (omega arith)
estimate_string-append te (c ∷ s) (d ∷ t) u =
    let num = te.chars_per_token.num in
    let den = te.chars_per_token.den in
    let split : suc (length (s ++ (d ∷ t))) * den ≡ suc (length s) * den + suc (length t) * den =
      rw (length-append s (d ∷ t)) (omega arith) in
    rw split (omega (arith, div-add (suc (length s) * den) (suc (length t) * den) num u.0))
