-- ===== src/Prelude/Sorting.antt =====
-- Sorting by an integer key, as Go's package sort leaves it: the entries in ascending order of their keys,
-- equal ones in any order; and an insertion sort for runs of the models.
use mathlib.Core.List.{Perm}
use mathlib.Core.List.Perm
use Prim.Native.Nat.{ℕ, zero, suc}
use mathlib.Core.Path.{◌≡◌, refl}
use mathlib.Core.Logic.{◌↔◌, ◌⊎◌, inl, inr}
use mathlib.Core.Bool.{false}
use mathlib.Core.List.{List, [], ◌∷◌, ◌++◌}
use mathlib.Core.Option.{some}
use echoryn.Prelude.Tests.{if◌then◌else◌, Bool-cases}
use echoryn.Prelude.Ints.{ℤ, int_ltb, int_ltb_asym, int_le_trans}
use echoryn.Prelude.Lists.{get_elem?, All, All-map}

along {ℓ κ κ'} : {E : Type ℓ} {B : Type κ} {C : Type κ'} → (B → C) → E ⊎ B → E ⊎ C
along f (inl e) = inl e
along f (inr b) = inr (f b)

module _ {ℓ} {A : Type ℓ} where
  abbrev pub Found : A → List A → Type ℓ
  Found x xs = (j : ℕ) × (get_elem? xs j ≡ some x)

  pub later-Found : (x y : A) (xs : List A) → Found x xs → Found x (y ∷ xs)
  later-Found x y xs (j, e) = (suc j, e)

  pub Found-cons : (x y : A) (xs : List A) → Found x (y ∷ xs) ↔ ((y ≡ x) ⊎ Found x xs)
  Found-cons x y xs = (there, back)
    where
      there : Found x (y ∷ xs) → (y ≡ x) ⊎ Found x xs
      there (zero, e) = inl cc
      there (suc j, e) = inr (j, e)

      back : (y ≡ x) ⊎ Found x xs → Found x (y ∷ xs)
      back (inl e) = (0, rw e refl)
      back (inr (j, e)) = (suc j, e)

  pub All-at {κ} :
      (P : A → Type κ) (xs : List A) (j : ℕ) (x : A) → get_elem? xs j ≡ some x → All P xs → P x
  All-at P [] j x e h = cc
  All-at P (y ∷ xs) zero x e h = let it : y ≡ x = cc in rw (← it) h.0
  All-at P (y ∷ xs) (suc j) x e h = All-at P xs j x e h.1

  pub All-Found {κ} : (P : A → Type κ) (xs : List A) → ((x : A) → Found x xs → P x) → All P xs
  All-Found P [] h = tt
  All-Found P (x ∷ xs) h = (h x (0, refl), All-Found P xs (λ y f. h y (later-Found y x xs f)))

module _ {ℓ} {A : Type ℓ} where
  pub Found-append : (x : A) (xs ys : List A) → Found x (xs ++ ys) ↔ (Found x xs ⊎ Found x ys)
  Found-append x [] ys = (inr, back)
    where
      back : Found x [] ⊎ Found x ys → Found x ys
      back (inl (j, e)) = absurd cc
      back (inr f) = f
  Found-append x (z ∷ xs) ys = let ih = Found-append x xs ys in (there (ih.0), back (ih.1))
    where
      there :
          (Found x (xs ++ ys) → Found x xs ⊎ Found x ys)
          → Found x (z ∷ (xs ++ ys))
          → Found x (z ∷ xs) ⊎ Found x ys
      there ih f = elim ((Found-cons x z (xs ++ ys)).0 f) [
        | inl e ↦ inl ((Found-cons x z xs).1 (inl e))
        | inr g ↦ elim (ih g) [ inl h ↦ inl (later-Found x z xs h) | inr h ↦ inr h ]
      ]

      back :
          (Found x xs ⊎ Found x ys → Found x (xs ++ ys))
          → Found x (z ∷ xs) ⊎ Found x ys
          → Found x (z ∷ (xs ++ ys))
      back ih (inl f) = elim ((Found-cons x z xs).0 f) [
        | inl e ↦ (Found-cons x z (xs ++ ys)).1 (inl e)
        | inr g ↦ later-Found x z (xs ++ ys) (ih (inl g))
      ]
      back ih (inr f) = later-Found x z (xs ++ ys) (ih (inr f))

  -- Lists with the same entries stay so when the same list is put behind them.
  pub Found-before :
      (x : A) (xs xs' ys : List A)
      → Found x xs ↔ Found x xs'
      → Found x (xs ++ ys) ↔ Found x (xs' ++ ys)
  Found-before x xs xs' ys h = (
    λ f. (Found-append x xs' ys).1 (first (h.0) ((Found-append x xs ys).0 f)),
    λ f. (Found-append x xs ys).1 (first (h.1) ((Found-append x xs' ys).0 f)),
  )
    where
      first : {B C D : Type ℓ} → (B → C) → B ⊎ D → C ⊎ D
      first g (inl b) = inl (g b)
      first g (inr d) = inr d

module _ {ℓ} {A : Type ℓ} (key : A → ℤ) where
  -- No entry has a larger key than a later one.
  abbrev pub Ascending : List A → Type 0
  Ascending [] = Unit
  Ascending (x ∷ xs) = All (λ y. int_ltb (key y) (key x) ≡ false) xs × Ascending xs

  -- A sort keeps each entry as often as it stands in the list, and puts them in ascending order.
  pub record IsSort (sort : List A → List A) : Type ℓ where
    pub permutes : (xs : List A) → Perm (sort xs) xs
    pub ascends : (xs : List A) → Ascending (sort xs)

  abbrev insert_sorted : A → List A → List A
  insert_sorted x [] = x ∷ []
  insert_sorted x (y ∷ ys) = if int_ltb (key y) (key x) then y ∷ insert_sorted x ys else x ∷ y ∷ ys

  abbrev pub sort_by : List A → List A
  sort_by [] = []
  sort_by (x ∷ xs) = insert_sorted x (sort_by xs)

  insert_sorted-Found :
      (z x : A) (xs : List A) → Found z (insert_sorted x xs) ↔ ((x ≡ z) ⊎ Found z xs)
  insert_sorted-Found z x [] = Found-cons z x []
  insert_sorted-Found z x (y ∷ ys) = elim (Bool-cases (int_ltb (key y) (key x))) [
    | inl small ↦
        let ih = insert_sorted-Found z x ys in
        rw small (
          λ f. swapped (ih.0) ((Found-cons z y (insert_sorted x ys)).0 f),
          λ h. (Found-cons z y (insert_sorted x ys)).1 (swapped_back (ih.1) h),
        )
    | inr large ↦ rw large (Found-cons z x (y ∷ ys))
  ]
    where
      swapped :
          (Found z (insert_sorted x ys) → (x ≡ z) ⊎ Found z ys)
          → (y ≡ z) ⊎ Found z (insert_sorted x ys)
          → (x ≡ z) ⊎ Found z (y ∷ ys)
      swapped ih (inl e) = inr ((Found-cons z y ys).1 (inl e))
      swapped ih (inr f) = elim (ih f) [ inl e ↦ inl e | inr g ↦ inr (later-Found z y ys g) ]

      swapped_back :
          ((x ≡ z) ⊎ Found z ys → Found z (insert_sorted x ys))
          → (x ≡ z) ⊎ Found z (y ∷ ys)
          → (y ≡ z) ⊎ Found z (insert_sorted x ys)
      swapped_back ih (inl e) = inr (ih (inl e))
      swapped_back ih (inr f) = elim ((Found-cons z y ys).0 f) [
        | inl e ↦ inl e
        | inr g ↦ inr (ih (inr g))
      ]

  insert_sorted-Ascending : (x : A) (xs : List A) → Ascending xs → Ascending (insert_sorted x xs)
  insert_sorted-Ascending x [] h = (tt, tt)
  insert_sorted-Ascending x (y ∷ ys) h = elim (Bool-cases (int_ltb (key y) (key x))) [
    | inl small ↦ rw small (
      All-Found (λ z. int_ltb (key z) (key y) ≡ false) (insert_sorted x ys)
          (λ z f. after z ((insert_sorted-Found z x ys).0 f) (int_ltb_asym (key y) (key x) small)),
      insert_sorted-Ascending x ys h.1,
    )
    | inr large ↦
        rw large ((large, All-map (λ z e. int_le_trans (key x) (key y) (key z) large e) ys h.0), h)
  ]
    where
      after :
          (z : A)
          → (x ≡ z) ⊎ Found z ys
          → int_ltb (key x) (key y) ≡ false
          → int_ltb (key z) (key y) ≡ false
      after z (inl e) s = rw (← e) s
      after z (inr (j, e)) s = All-at (λ w. int_ltb (key w) (key y) ≡ false) ys j z e h.0

  insert_sorted-Perm : (x : A) (xs : List A) → Perm (insert_sorted x xs) (x ∷ xs)
  insert_sorted-Perm x [] = Perm.refl (x ∷ [])
  insert_sorted-Perm x (y ∷ ys) = elim (Bool-cases (int_ltb (key y) (key x))) [
    | inl small ↦ rw small (Perm.trans (Perm.cons y (insert_sorted-Perm x ys)) (Perm.swap x y ys))
    | inr large ↦ rw large (Perm.refl (x ∷ y ∷ ys))
  ]

  pub sort_by-IsSort : IsSort sort_by
  sort_by-IsSort = record { permutes = permutes; ascends = ascends }
    where
      permutes : (xs : List A) → Perm (sort_by xs) xs
      permutes [] = Perm.refl []
      permutes (x ∷ xs) = Perm.trans (insert_sorted-Perm x (sort_by xs)) (Perm.cons x (permutes xs))

      ascends : (xs : List A) → Ascending (sort_by xs)
      ascends [] = tt
      ascends (x ∷ xs) = insert_sorted-Ascending x (sort_by xs) (ascends xs)
