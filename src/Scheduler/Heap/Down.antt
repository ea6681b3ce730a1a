-- ===== src/Scheduler/Heap/Down.antt =====
-- The loop of container/heap that moves an entry away from the root.
use mathlib.Core.Logic.{◌≢◌}
use native.Mathlib.Numerals.{add-one}
use echoryn.Prelude.{
  ℕ, zero, suc, ◌+◌, ◌*◌, ◌≤◌, ◌<◌, ◌≡◌, refl, Bool, true, false, List, some, Option, arith, length,
  get_elem?, ltb, leb, Bool-cases, inl, inr, ◌⊎◌,
}
use echoryn.Scheduler.Heap.{parent, first_child, down_loop, down}
use echoryn.Scheduler.Heap.Order.{
  IsOrder, Shuffled, Shuffled-refl, Shuffled-trans, Swapped, swap_lem, Swapped-Shuffled, ole,
  IsHeap, IsBridged, less_at_lem, ole_trans, ole_total,
}
use echoryn.Scheduler.Heap.Up.{UpInv}

module _ {ℓ} {A : Type ℓ} (less : A → A → Bool) (order : IsOrder less) where
  -- Below index `n` only the edges below `i` may be out of order.
  pub record DownInv (n : ℕ) (a : List A) (i : ℕ) : Type 0 where
    pub inside : i ≤ n
    pub held : n ≤ length a
    pub edges :
        (c : ℕ)
        → 0 < c
        → c < n
        → parent c ≢ i
        → ole less (get_elem? a (parent c)) (get_elem? a c) ≡ true
    pub bridged : IsBridged less n a i

  -- `j` is the child of `i` that comes first.
  record IsFirstChild (n : ℕ) (a : List A) (i j : ℕ) : Type 0 where
    inside : j < n
    child : parent j ≡ i
    below : i < j
    first : (c : ℕ) → 0 < c → c < n → parent c ≡ i → ole less (get_elem? a j) (get_elem? a c) ≡ true

  first_child_lem :
      (n : ℕ) (a : List A) (i : ℕ)
      → 2 * i + 1 < n
      → n ≤ length a
      → (j : ℕ) × (first_child less a i n ≡ some j) × IsFirstChild n a i j
  unfolding first_child
  first_child_lem n a i p held = elim (Bool-cases (ltb (2 * i + 2) n)) [
    | inl two ↦
        let l = 2 * i + 1 in
        let r = 2 * i + 2 in
        let hr : r < n = ground arith in
        rw (two, less_at_lem less a r l (omega arith) (omega arith))
          (elim (Bool-cases (ole less (get_elem? a l) (get_elem? a r))) [
            | inl left ↦ rw left (
              l,
              refl,
              record {
                inside = p;
                child = omega arith;
                below = omega arith;
                first = λ c q s t. child_cases n a i l (ole_self _) left c q t;
              },
            )
            | inr right ↦ rw right (
              r,
              refl,
              record {
                inside = hr;
                child = omega arith;
                below = omega arith;
                first = λ c q s t.
                    child_cases n a i r (ole_total less order _ _ right) (ole_self _) c q t;
              },
            )
          ])
    | inr one ↦ rw one (
      2 * i + 1,
      refl,
      record {
        inside = p;
        child = omega arith;
        below = omega arith;
        first = λ c q s t.
            let only : c ≡ 2 * i + 1 = ground arith in rw only (ole_self (get_elem? a (2 * i + 1)));
      },
    )
  ]
    where
      ole_self : (p : Option A) → ole less p p ≡ true
      ole_self p = ground (arith, ole_total less order p p)

      child_cases :
          (n : ℕ) (a : List A) (i j : ℕ)
          → ole less (get_elem? a j) (get_elem? a (2 * i + 1)) ≡ true
          → ole less (get_elem? a j) (get_elem? a (2 * i + 2)) ≡ true
          → (c : ℕ) → 0 < c
          → parent c ≡ i
          → ole less (get_elem? a j) (get_elem? a c) ≡ true
      child_cases n a i j h k c q t =
          let which : (c ≡ 2 * i + 1) ⊎ (c ≡ 2 * i + 2) = ground arith in
          elim which [ inl e ↦ rw e h | inr e ↦ rw e k ]

  swap-DownInv :
      (n : ℕ) (a s : List A) (i j : ℕ)
      → i < n
      → n ≤ length a
      → ((c : ℕ)
          → 0 < c
          → c < n
          → parent c ≢ i
          → c ≢ i
          → ole less (get_elem? a (parent c)) (get_elem? a c) ≡ true)
      → IsBridged less n a i
      → IsFirstChild n a i j
      → ole less (get_elem? a i) (get_elem? a j) ≡ false
      → Swapped a i j s
      → DownInv n s j
  swap-DownInv n a s i j hi held edges bridged f late w =
      let before = ole_total less order _ _ late in
      record {
        inside = omega (arith, f.inside);
        held = omega (arith, w.size);
        edges = λ c p q r. ground (
          arith,
          w.at c,
          w.at (parent c),
          edges c,
          bridged j,
          f.first c,
          f.child,
          f.below,
          f.inside,
          before,
        );
        bridged = λ c p q r t. ground (arith, w.at c, w.at (parent j), edges c, f.child, f.below);
      }

  -- The run ends, with the same entries, `from` at index `k`.
  abbrev pub Sunk : ℕ → List A → ℕ → Option (List A × ℕ) → Type ℓ
  Sunk n a i r =
      (b : List A) × (k : ℕ) × (r ≡ some (b, k)) × IsHeap less n b × Shuffled n a b × (i ≤ k)

  down_loop_restores :
      (f n : ℕ) (a : List A) (i : ℕ)
      → n < f + i
      → DownInv n a i
      → Sunk n a i (down_loop less f a i n)
  unfolding down_loop
  down_loop_restores zero n a i h v = absurd (omega (arith, v.inside))
  down_loop_restores (suc f) n a i h v = elim (Bool-cases (leb n (2 * i + 1))) [
    | inl leaf ↦
        rw leaf (a, i, refl, λ c p q. v.edges c p q (ground arith), Shuffled-refl, omega arith)
    | inr inner ↦
        let room : 2 * i + 1 < n = ground arith in
        let (j, ej, first) = first_child_lem n a i room v.held in
        rw
          (
            inner,
            ej,
            less_at_lem less a j i (omega (arith, first.inside, v.held)) (omega (arith, v.held)),
          )
          (elim (Bool-cases (ole less (get_elem? a i) (get_elem? a j))) [
            | inl fine ↦ rw fine (
              a,
              i,
              refl,
              λ c p q. ground (
                arith,
                v.edges c,
                first.first c,
                ole_trans less order (get_elem? a i) (get_elem? a j) (get_elem? a c),
              ),
              Shuffled-refl,
              omega arith,
            )
            | inr late ↦
                let hi : i < length a = omega (arith, v.held) in
                let hj : j < length a = omega (arith, first.inside, v.held) in
                let (s, w) = swap_lem a i j hi hj in
                let inv =
                  swap-DownInv n a s i j (omega arith) v.held (λ c p q r t. v.edges c p q r)
                    v.bridged first late w in
                let (b, k, e, heap, rest, far) =
                  down_loop_restores f n s j (omega (arith, first.below)) inv in
                let moved = Swapped-Shuffled (omega arith) first.inside w in
                rw (late, w.runs)
                  (b, k, e, heap, Shuffled-trans moved rest, omega (arith, first.below))
          ])
  ]

  -- `down` turns a list with one entry too near the root into a heap of the same entries.
  pub down_restores : (n : ℕ) (a : List A) (i : ℕ) → DownInv n a i → Sunk n a i (down less a i n)
  unfolding down
  down_restores n a i v = down_loop_restores (n + 1) n a i (omega arith) v

  -- Below index `n` only the edges at `i`, above it and below it, may be out of order.
  pub record OpenInv (n : ℕ) (a : List A) (i : ℕ) : Type 0 where
    pub inside : i < n
    pub held : n ≤ length a
    pub edges :
        (c : ℕ)
        → 0 < c
        → c < n
        → parent c ≢ i
        → c ≢ i
        → ole less (get_elem? a (parent c)) (get_elem? a c) ≡ true
    pub bridged : IsBridged less n a i

  -- Either the entry moved, and the list is a heap, or only the edge above it is left.
  abbrev pub Placed : ℕ → List A → ℕ → Option (List A × ℕ) → Type ℓ
  Placed n a i r =
      (b : List A) × (k : ℕ) × (r ≡ some (b, k))
      × Shuffled n a b
      × ((IsHeap less n b × (i < k)) ⊎ (UpInv less order n b i × (k ≡ i)))

  down_loop_places :
      (f n : ℕ) (a : List A) (i : ℕ)
      → n < suc f + i
      → OpenInv n a i
      → Placed n a i (down_loop less (suc f) a i n)
  unfolding down_loop
  down_loop_places f n a i h v = elim (Bool-cases (leb n (2 * i + 1))) [
    | inl leaf ↦ rw leaf (
      a,
      i,
      refl,
      Shuffled-refl,
      inr (
        record {
          inside = v.inside;
          held = v.held;
          edges = λ c p q r. v.edges c p q (ground arith) r;
          bridged = v.bridged;
        },
        refl,
      ),
    )
    | inr inner ↦
        let room : 2 * i + 1 < n = ground arith in
        let (j, ej, first) = first_child_lem n a i room v.held in
        rw
          (
            inner,
            ej,
            less_at_lem less a j i (omega (arith, first.inside, v.held)) (omega (arith, v.held)),
          )
          (elim (Bool-cases (ole less (get_elem? a i) (get_elem? a j))) [
            | inl fine ↦ rw fine (
              a,
              i,
              refl,
              Shuffled-refl,
              inr (
                record {
                  inside = v.inside;
                  held = v.held;
                  edges = λ c p q r. ground (
                    arith,
                    v.edges c,
                    first.first c,
                    ole_trans less order (get_elem? a i) (get_elem? a j) (get_elem? a c),
                  );
                  bridged = v.bridged;
                },
                refl,
              ),
            )
            | inr late ↦
                let hi : i < length a = omega (arith, v.held) in
                let hj : j < length a = omega (arith, first.inside, v.held) in
                let (s, w) = swap_lem a i j hi hj in
                let inv = swap-DownInv n a s i j v.inside v.held v.edges v.bridged first late w in
                let (b, k, e, heap, rest, far) =
                  down_loop_restores f n s j (omega (arith, first.below)) inv in
                let moved = Swapped-Shuffled v.inside first.inside w in
                rw (late, w.runs)
                  (b, k, e, Shuffled-trans moved rest, inl (heap, omega (arith, first.below)))
          ])
  ]

  pub down_places : (n : ℕ) (a : List A) (i : ℕ) → OpenInv n a i → Placed n a i (down less a i n)
  unfolding down
  down_places n a i v = rw add-one (down_loop_places n n a i (omega arith) v)
