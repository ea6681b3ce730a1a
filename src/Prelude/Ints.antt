-- ===== src/Prelude/Ints.antt =====
-- Go's signed integers, with the order and the successor of `int64`.
use Prim.Native.Nat.{ℕ, zero, suc, ◌+◌}
use mathlib.Core.Path.{◌≡◌, refl}
use mathlib.Core.Bool.{Bool, true, false}
use native.Mathlib.Omega.{arith}
use echoryn.Prelude.Tests.{◌==◌, ltb, if◌then◌else◌}

pub data ℤ : Type 0 where
  pos negsuc : ℕ → ℤ

abbrev pub int_ltb : ℤ → ℤ → Bool
int_ltb (pos a) (pos b) = ltb a b
int_ltb (pos a) (negsuc b) = false
int_ltb (negsuc a) (pos b) = true
int_ltb (negsuc a) (negsuc b) = ltb b a

abbrev pub int_same : ℤ → ℤ → Bool
int_same (pos a) (pos b) = a == b
int_same (negsuc a) (negsuc b) = a == b
int_same _ _ = false

-- `n++` on an int64.
abbrev pub next_int64 : ℤ → ℤ
next_int64 (pos n) = if n == 0x7FFFFFFFFFFFFFFF then negsuc 0x7FFFFFFFFFFFFFFF else pos (n + 1)
next_int64 (negsuc zero) = pos 0
next_int64 (negsuc (suc n)) = negsuc n

pub int_ltb_asym : (a b : ℤ) → int_ltb a b ≡ true → int_ltb b a ≡ false
int_ltb_asym (pos a) (pos b) h = ground arith
int_ltb_asym (pos a) (negsuc b) h = cc
int_ltb_asym (negsuc a) (pos b) h = refl
int_ltb_asym (negsuc a) (negsuc b) h = ground arith

pub int_le_trans : (a b c : ℤ) → int_ltb b a ≡ false → int_ltb c b ≡ false → int_ltb c a ≡ false
int_le_trans (pos a) (pos b) (pos c) h k = ground arith
int_le_trans (pos a) (pos b) (negsuc c) h k = cc
int_le_trans (pos a) (negsuc b) c h k = cc
int_le_trans (negsuc a) (pos b) (pos c) h k = refl
int_le_trans (negsuc a) (pos b) (negsuc c) h k = cc
int_le_trans (negsuc a) (negsuc b) (pos c) h k = refl
int_le_trans (negsuc a) (negsuc b) (negsuc c) h k = ground arith

pub int_same_le : (a b : ℤ) → int_same a b ≡ true → int_ltb a b ≡ false
int_same_le (pos a) (pos b) h = ground arith
int_same_le (pos a) (negsuc b) h = cc
int_same_le (negsuc a) (pos b) h = cc
int_same_le (negsuc a) (negsuc b) h = ground arith

pub int_same_sym : (a b : ℤ) → int_same a b ≡ true → int_same b a ≡ true
int_same_sym (pos a) (pos b) h = ground arith
int_same_sym (pos a) (negsuc b) h = cc
int_same_sym (negsuc a) (pos b) h = cc
int_same_sym (negsuc a) (negsuc b) h = ground arith

pub int_antisym : (a b : ℤ) → int_ltb a b ≡ false → int_ltb b a ≡ false → int_same a b ≡ true
int_antisym (pos a) (pos b) h k = ground arith
int_antisym (pos a) (negsuc b) h k = cc
int_antisym (negsuc a) (pos b) h k = cc
int_antisym (negsuc a) (negsuc b) h k = ground arith

-- Below the largest int64 the successor is larger than whatever the number is not below.
pub next_int64_larger :
    (a s : ℤ)
    → int_same s (pos 0x7FFFFFFFFFFFFFFF) ≡ false
    → int_ltb s a ≡ false
    → int_ltb a (next_int64 s) ≡ true
next_int64_larger (pos a) (pos s) h k = ground arith
next_int64_larger (pos a) (negsuc s) h k = cc
next_int64_larger (negsuc a) (pos s) h k = ground arith
next_int64_larger (negsuc a) (negsuc zero) h k = refl
next_int64_larger (negsuc a) (negsuc (suc s)) h k = ground arith
