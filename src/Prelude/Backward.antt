-- ===== src/Prelude/Backward.antt =====
-- A loop that runs from the end of a list and stops at the entry with which enough are found, as
-- findProtectionBoundary and limitHistoryTurns of internal/hivemind/service/agents/domain/service/runtime have it.
use Prim.Native.Nat.{ℕ, zero, suc, ◌+◌, ◌≤◌, ◌<◌}
use mathlib.Core.Path.{◌≡◌, refl}
use mathlib.Core.Logic.{◌⊎◌, inl, inr}
use mathlib.Core.Bool.{Bool, true, false, ◌&&◌}
use mathlib.Core.List.{List, [], ◌∷◌}
use mathlib.Core.Option.{none, some}
use native.Mathlib.Omega.{arith}
use echoryn.Prelude.Tests.{if◌then◌else◌, leb, Bool-cases}
use echoryn.Prelude.Lists.{length, get_elem?, get_elem?-some, drop}

module _ {ℓ} {A : Type ℓ} (p : A → Bool) where
  -- `for i := len(xs) - 1; i >= 0; i--` with `i + 1` rounds left and `count` entries found.
  unfoldable pub backward : ℕ → List A → ℕ → ℕ → ℕ
  backward wanted xs zero count = 0
  backward wanted xs (suc i) count =
      let found : Bool = elim (get_elem? xs i) [ none ↦ false | some x ↦ p x ] in
      let rest = backward wanted xs i (if found then count + 1 else count) in
      if found && leb wanted (count + 1) then i else rest

  -- How many entries pass the test.
  unfoldable pub tally : List A → ℕ
  tally [] = 0
  tally (x ∷ xs) = (if p x then 1 else 0) + tally xs

  tally-drop :
      (i : ℕ) (xs : List A) (x : A)
      → get_elem? xs i ≡ some x
      → tally (drop i xs) ≡ (if p x then 1 else 0) + tally (drop (suc i) xs)
  unfolding tally
  tally-drop i [] x e = cc
  tally-drop zero (y ∷ xs) x e = ground arith
  tally-drop (suc i) (y ∷ xs) x e = tally-drop i xs x e

  tally-drop_all : (xs : List A) → tally (drop (length xs) xs) ≡ 0
  unfolding tally
  tally-drop_all [] = refl
  tally-drop_all (x ∷ xs) = tally-drop_all xs

  -- An entry that passes stands at the index, and with it exactly `wanted` follow; or fewer are in the whole list,
  -- and the index is 0.
  abbrev pub Stops : ℕ → List A → ℕ → Type ℓ
  Stops wanted xs b =
      (b ≤ length xs)
      × (((x : A) × (get_elem? xs b ≡ some x) × (p x ≡ true) × (tally (drop b xs) ≡ wanted))
          ⊎ ((b ≡ 0) × (tally xs < wanted)))

  backward_step :
      (wanted : ℕ) (xs : List A) (i count : ℕ)
      → i ≤ length xs
      → count < wanted
      → tally (drop i xs) ≡ count
      → Stops wanted xs (backward wanted xs i count)
  unfolding backward
  backward_step wanted xs zero count h k e = (omega arith, inr (refl, omega arith))
  backward_step wanted xs (suc i) count h k e =
      let (x, at) = get_elem?-some xs i (omega arith) in
      let here = tally-drop i xs x at in
      elim (Bool-cases (p x)) [
        | inl yes_it ↦
            rw (at, yes_it)
              (elim (Bool-cases (leb wanted (count + 1))) [
                | inl full ↦ rw full (omega arith, inl (x, at, yes_it, ground arith))
                | inr room ↦ rw room (
                    backward_step wanted xs i (count + 1) (omega arith) (ground arith)
                      (ground arith))
              ])
        | inr not_it ↦
            rw (at, not_it) (backward_step wanted xs i count (omega arith) k (ground arith))
      ]

  pub backward-Stops :
      (wanted : ℕ) (xs : List A) → 0 < wanted → Stops wanted xs (backward wanted xs (length xs) 0)
  backward-Stops wanted xs h =
      backward_step wanted xs (length xs) 0 (omega arith) h (tally-drop_all xs)
