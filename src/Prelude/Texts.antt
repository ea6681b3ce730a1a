-- ===== src/Prelude/Texts.antt =====
-- Texts as lists of code points (or of bytes, where a component says so), with the tests that the
-- source takes from Go's `strings` package.
use Prim.Native.Nat.{ℕ, zero, suc, ◌+◌, ◌-◌, ◌/◌, ◌%◌, ◌≤◌, ◌<◌}
use Prim.Native.Char.{code}
use Prim.Native.String.{String}
use mathlib.Core.Path.{◌≡◌, refl}
use mathlib.Core.Logic.{◌↔◌}
use mathlib.Core.Bool.{Bool, true, false, ◌&&◌, ◌||◌}
use mathlib.Core.List.{List, [], ◌∷◌, ◌++◌, map}
use native.Mathlib.Numerals.{add-one}
use native.Mathlib.Omega.{arith}
use echoryn.Prelude.Lists.{length}
use echoryn.Prelude.Tests.{◌==◌, ltb, leb, if◌then◌else◌}

abbrev pub Text : Type 0
Text = List ℕ

-- The code points of a literal.
abbrev pub codes : String → Text
codes String.[] = []
codes (String.◌∷◌ c s) = code c ∷ codes s

-- Go's `==` on strings.
unfoldable pub same : Text → Text → Bool
same [] [] = true
same (x ∷ xs) (y ∷ ys) = x == y && same xs ys
same _ _ = false

same_sound : (s t : Text) → same s t ≡ true → s ≡ t
unfolding same
same_sound [] [] h = refl
same_sound [] (y ∷ ys) h = cc
same_sound (x ∷ xs) [] h = cc
same_sound (x ∷ xs) (y ∷ ys) h = ground (arith, same_sound xs ys)

pub same_self : (s : Text) → same s s ≡ true
unfolding same
same_self [] = refl
same_self (x ∷ xs) = ground (arith, same_self xs)

pub same_iff : (s t : Text) → (same s t ≡ true) ↔ (s ≡ t)
same_iff s t = (same_sound s t, λ e. rw e (same_self t))

abbrev pub is_empty : Text → Bool
is_empty [] = true
is_empty (_ ∷ _) = false

-- strings.HasPrefix, with the prefix first.
unfoldable pub has_prefix : Text → Text → Bool
has_prefix [] t = true
has_prefix (p ∷ ps) [] = false
has_prefix (p ∷ ps) (c ∷ cs) = p == c && has_prefix ps cs

-- strings.Contains, with the pattern first.
unfoldable pub contains : Text → Text → Bool
unfolding has_prefix
contains p [] = has_prefix p []
contains p (c ∷ cs) = has_prefix p (c ∷ cs) || contains p cs

-- strings.ToLower and strings.ToUpper, as far as the result is an ASCII letter: the two code points
-- beyond ASCII that Go maps to one are listed, and every other code point beyond ASCII is kept.
unfoldable pub lower_rune : ℕ → ℕ
lower_rune c =
    if leb b'A' c && leb c b'Z'
    then c + 32
    else if c == 0x212A
    then b'k'
    else if c == 0x130
    then b'i'
    else c

unfoldable pub upper_rune : ℕ → ℕ
upper_rune c =
    if leb b'a' c && leb c b'z'
    then c - 32
    else if c == 0x131
    then b'I'
    else if c == 0x17F
    then b'S'
    else c

abbrev pub to_lower : Text → Text
to_lower = map lower_rune

abbrev pub to_upper : Text → Text
to_upper = map upper_rune

pub has_prefix-append : (p t : Text) → has_prefix p (p ++ t) ≡ true
unfolding has_prefix
has_prefix-append [] t = refl
has_prefix-append (c ∷ p) t = ground (arith, has_prefix-append p t)

-- A text contains whatever stands in its middle.
pub contains-append : (s p t : Text) → contains p (s ++ (p ++ t)) ≡ true
unfolding contains
contains-append [] [] [] = refl
contains-append [] [] (c ∷ t) = refl
contains-append [] (c ∷ p) t = ground (arith, has_prefix-append (c ∷ p) t)
contains-append (c ∷ s) p t = ground (arith, contains-append s p t)

-- The decimal digits of `%d`, last digit first found; the fuel is one more than the number.
decimal_loop : ℕ → ℕ → Text → Text
decimal_loop zero n out = out
decimal_loop (suc f) n out =
    let rest = decimal_loop f (n / 10) ((b'0' + n % 10) ∷ out) in
    if ltb n 10 then (b'0' + n) ∷ out else rest

unfoldable pub decimal : ℕ → Text
unfolding decimal_loop
decimal n = decimal_loop (n + 1) n []

-- strings.Join, with the separator first.
unfoldable pub join : Text → List Text → Text
join sep [] = []
join sep (t ∷ []) = t
join sep (t ∷ u ∷ ts) = t ++ (sep ++ join sep (u ∷ ts))

decimal_loop-length : (f n : ℕ) (out : Text) → length out ≤ length (decimal_loop f n out)
unfolding decimal_loop
decimal_loop-length zero n out = omega arith
decimal_loop-length (suc f) n out =
    ground (arith, decimal_loop-length f (n / 10) ((b'0' + n % 10) ∷ out))

-- A number has at least one digit.
pub length-decimal_pos : (n : ℕ) → 0 < length (decimal n)
unfolding decimal
length-decimal_pos n = rw add-one (one_digit n)
  where
    one_digit : (f : ℕ) → 0 < length (decimal_loop (suc f) n [])
    one_digit f = ground (arith, decimal_loop-length f (n / 10) ((b'0' + n % 10) ∷ []))
