-- ===== src/Scheduler/Heap/Up.antt =====
-- The loop of container/heap that moves an entry towards the root.
use mathlib.Core.Logic.{◌≢◌}
use echoryn.Prelude.{
  ℕ, zero, suc, ◌+◌, ◌≤◌, ◌<◌, ◌≡◌, refl, Bool, true, false, List, some, Option, arith, length,
  get_elem?, ◌==◌, Bool-cases, inl, inr,
}
use echoryn.Scheduler.Heap.{parent, up_loop, up}
use echoryn.Scheduler.Heap.Order.{
  IsOrder, Shuffled, Shuffled-refl, Shuffled-trans, Swapped, swap_lem, Swapped-Shuffled, ole,
  IsHeap, IsBridged, less_at_lem, ole_trans, ole_total,
}

module _ {ℓ} {A : Type ℓ} (less : A → A → Bool) (order : IsOrder less) where
  -- Below index `n` only the edge above `i` may be out of order.
  pub record UpInv (n : ℕ) (a : List A) (i : ℕ) : Type 0 where
    pub inside : i < n
    pub held : n ≤ length a
    pub edges :
        (c : ℕ) → 0 < c → c < n → c ≢ i → ole less (get_elem? a (parent c)) (get_elem? a c) ≡ true
    pub bridged : IsBridged less n a i

  swap-UpInv :
      (n : ℕ) (a s : List A) (i : ℕ)
      → UpInv n a i
      → 0 < i
      → ole less (get_elem? a (parent i)) (get_elem? a i) ≡ false
      → Swapped a (parent i) i s
      → UpInv n s (parent i)
  swap-UpInv n a s i v pos late w =
      let before = ole_total less order _ _ late in
      record {
        inside = omega (arith, v.inside);
        held = omega (arith, v.held, w.size);
        edges = λ c p q r. ground (
          arith,
          w.at c,
          w.at (parent c),
          v.edges c,
          v.bridged c,
          before,
          ole_trans less order (get_elem? a i) (get_elem? a (parent i)) (get_elem? a c),
        );
        bridged = λ c p q r t. ground (
          arith,
          w.at c,
          w.at (parent (parent i)),
          v.edges c,
          v.edges (parent i),
          ole_trans less order (get_elem? a (parent (parent i))) (get_elem? a (parent i))
              (get_elem? a c),
        );
      }

  -- The run ends, below `n` in a heap, with the same entries.
  abbrev pub Risen : ℕ → List A → Option (List A) → Type ℓ
  Risen n a r = (b : List A) × (r ≡ some b) × IsHeap less n b × Shuffled n a b

  up_loop_restores :
      (f n : ℕ) (a : List A) (i : ℕ) → i < f → UpInv n a i → Risen n a (up_loop less f a i)
  unfolding up_loop
  up_loop_restores zero n a i h v = absurd (omega arith)
  up_loop_restores (suc f) n a i h v = elim (Bool-cases (parent i == i)) [
    | inl top ↦ rw top (a, refl, λ c p q. v.edges c p q (ground arith), Shuffled-refl)
    | inr low ↦
        let pos : 0 < i = ground arith in
        let above : parent i < length a = omega (arith, v.inside, v.held) in
        let here : i < length a = omega (arith, v.inside, v.held) in
        rw (low, less_at_lem less a i (parent i) here above)
          (elim (Bool-cases (ole less (get_elem? a (parent i)) (get_elem? a i))) [
            | inl fine ↦ rw fine (a, refl, λ c p q. ground (arith, v.edges c), Shuffled-refl)
            | inr late ↦
                let (s, w) = swap_lem a (parent i) i above here in
                let (b, e, heap, rest) =
                  up_loop_restores f n s (parent i) (omega arith)
                    (swap-UpInv n a s i v pos late w) in
                let moved = Swapped-Shuffled (omega (arith, v.inside)) v.inside w in
                rw (late, w.runs) (b, e, heap, Shuffled-trans moved rest)
          ])
  ]

  -- `up` turns a list with one entry too far from the root into a heap of the same entries.
  pub up_restores : (n : ℕ) (a : List A) (i : ℕ) → UpInv n a i → Risen n a (up less a i)
  unfolding up
  up_restores n a i v = up_loop_restores (i + 1) n a i (omega arith) v
