-- ===== src/Scheduler/Insertion.antt =====
-- A sort that keeps the promise which internal/hivemind/service/scheduler/selector.go relies on, for runs
-- of the model.
use echoryn.Prelude.{
  int_ltb, int_ltb_asym, int_le_trans, ℕ, zero, suc, ◌<◌, ◌≡◌, false, List, [], ◌∷◌, All, some,
  get_elem?, arith, Bool-cases, inl, inr, if◌then◌else◌,
}
use echoryn.Scheduler.Selector.{NodeScore}
use echoryn.Scheduler.Selector.Best.{SortsScores}

abbrev pub insert_score : NodeScore → List NodeScore → List NodeScore
insert_score x [] = x ∷ []
insert_score x (y ∷ ys) =
    if int_ltb y.total_score x.total_score then x ∷ y ∷ ys else y ∷ insert_score x ys

abbrev pub insertion_sort : List NodeScore → List NodeScore
insertion_sort [] = []
insertion_sort (x ∷ xs) = insert_score x (insertion_sort xs)

abbrev Found : NodeScore → List NodeScore → Type 0
Found z xs = (j : ℕ) × (get_elem? xs j ≡ some z)

later-Found : (y z : NodeScore) (xs : List NodeScore) → Found z xs → Found z (y ∷ xs)
later-Found y z xs (j, e) = (suc j, e)

either-Found :
    (x y z : NodeScore) (ys zs : List NodeScore)
    → (Found z zs → Found z (x ∷ ys))
    → Found z (y ∷ zs)
    → Found z (x ∷ y ∷ ys)
either-Found x y z ys zs rest (zero, e) = (1, e)
either-Found x y z ys zs rest (suc j, e) = over (rest (j, e))
  where
    over : Found z (x ∷ ys) → Found z (x ∷ y ∷ ys)
    over (zero, e) = (0, e)
    over (suc j, e) = (suc (suc j), e)

insert_sound :
    (x z : NodeScore) (ys : List NodeScore) → Found z (insert_score x ys) → Found z (x ∷ ys)
insert_sound x z [] h = h
insert_sound x z (y ∷ ys) h = elim (Bool-cases (int_ltb y.total_score x.total_score)) [
  | inl e ↦ rw e at h
  | inr e ↦ either-Found x y z ys (insert_score x ys) (insert_sound x z ys) (rw e at h)
]

insert_complete :
    (x z : NodeScore) (ys : List NodeScore) → Found z (x ∷ ys) → Found z (insert_score x ys)
insert_complete x z [] h = h
insert_complete x z (y ∷ ys) h = elim (Bool-cases (int_ltb y.total_score x.total_score)) [
  | inl e ↦ rw e h
  | inr e ↦ rw e (place h (insert_complete x z ys))
]
  where
    place :
        Found z (x ∷ y ∷ ys)
        → (Found z (x ∷ ys) → Found z (insert_score x ys))
        → Found z (y ∷ insert_score x ys)
    place (zero, e) rest = later-Found y z _ (rest (0, e))
    place (suc zero, e) rest = (0, e)
    place (suc (suc j), e) rest = later-Found y z _ (rest (suc j, e))

sort_sound : (z : NodeScore) (xs : List NodeScore) → Found z (insertion_sort xs) → Found z xs
sort_sound z [] h = h
sort_sound z (x ∷ xs) h = cons_map (sort_sound z xs) (insert_sound x z (insertion_sort xs) h)
  where
    cons_map :
        (Found z (insertion_sort xs) → Found z xs)
        → Found z (x ∷ insertion_sort xs)
        → Found z (x ∷ xs)
    cons_map rest (zero, e) = (0, e)
    cons_map rest (suc j, e) = later-Found x z xs (rest (j, e))

sort_complete : (z : NodeScore) (xs : List NodeScore) → Found z xs → Found z (insertion_sort xs)
sort_complete z [] h = h
sort_complete z (x ∷ xs) (zero, e) = insert_complete x z (insertion_sort xs) (zero, e)
sort_complete z (x ∷ xs) (suc j, e) =
    insert_complete x z (insertion_sort xs)
      (later-Found x z (insertion_sort xs) (sort_complete z xs (j, e)))

abbrev Descending : List NodeScore → Type 0
Descending [] = Unit
Descending (x ∷ xs) = All (λ y. int_ltb x.total_score y.total_score ≡ false) xs × Descending xs

All-lower :
    (x y : NodeScore) (ys : List NodeScore)
    → int_ltb x.total_score y.total_score ≡ false
    → All (λ z. int_ltb y.total_score z.total_score ≡ false) ys
    → All (λ z. int_ltb x.total_score z.total_score ≡ false) ys
All-lower x y [] h k = tt
All-lower x y (z ∷ ys) h k =
    (int_le_trans z.total_score y.total_score x.total_score k.0 h, All-lower x y ys h k.1)

All-insert :
    (x y : NodeScore) (ys : List NodeScore)
    → int_ltb y.total_score x.total_score ≡ false
    → All (λ z. int_ltb y.total_score z.total_score ≡ false) ys
    → All (λ z. int_ltb y.total_score z.total_score ≡ false) (insert_score x ys)
All-insert x y [] h k = (h, tt)
All-insert x y (z ∷ ys) h k = elim (Bool-cases (int_ltb z.total_score x.total_score)) [
  | inl e ↦ rw e (h, k)
  | inr e ↦ rw e (k.0, All-insert x y ys h k.1)
]

insert-Descending :
    (x : NodeScore) (ys : List NodeScore) → Descending ys → Descending (insert_score x ys)
insert-Descending x [] h = (tt, tt)
insert-Descending x (y ∷ ys) h = elim (Bool-cases (int_ltb y.total_score x.total_score)) [
  | inl e ↦
      let above = int_ltb_asym y.total_score x.total_score e in
      rw e ((above, All-lower x y ys above h.0), h)
  | inr e ↦ rw e (All-insert x y ys e h.0, insert-Descending x ys h.1)
]

sort-Descending : (xs : List NodeScore) → Descending (insertion_sort xs)
sort-Descending [] = tt
sort-Descending (x ∷ xs) = insert-Descending x (insertion_sort xs) (sort-Descending xs)

All-at :
    (x y : NodeScore) (xs : List NodeScore) (j : ℕ)
    → All (λ z. int_ltb x.total_score z.total_score ≡ false) xs
    → get_elem? xs j ≡ some y
    → int_ltb x.total_score y.total_score ≡ false
All-at x y [] j h e = cc
All-at x y (z ∷ xs) zero h e = let it : z ≡ y = grind arith in rw it at h.0
All-at x y (z ∷ xs) (suc j) h e = All-at x y xs j h.1 e

Descending-at :
    (xs : List NodeScore) (i j : ℕ) (x y : NodeScore)
    → Descending xs
    → get_elem? xs i ≡ some x
    → get_elem? xs j ≡ some y
    → i < j
    → int_ltb x.total_score y.total_score ≡ false
Descending-at [] i j x y h e k p = cc
Descending-at (z ∷ xs) zero zero x y h e k p = absurd (omega arith)
Descending-at (z ∷ xs) zero (suc j) x y h e k p =
    let it : z ≡ x = grind arith in All-at x y xs j (rw it at h.0) k
Descending-at (z ∷ xs) (suc i) zero x y h e k p = absurd (omega arith)
Descending-at (z ∷ xs) (suc i) (suc j) x y h e k p = Descending-at xs i j x y h.1 e k (omega arith)

pub insertion_sort-SortsScores : SortsScores insertion_sort
insertion_sort-SortsScores = record {
  kept = λ xs i x e. sort_sound x xs (i, e);
  held = λ xs j x e. sort_complete x xs (j, e);
  descending =
      λ xs i j x y e k p. Descending-at (insertion_sort xs) i j x y (sort-Descending xs) e k p;
}
