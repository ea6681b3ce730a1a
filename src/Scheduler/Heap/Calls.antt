-- ===== src/Scheduler/Heap/Calls.antt =====
-- Push, Pop and Remove of container/heap: each ends in a heap with the entries that it should hold.
use mathlib.Core.List.{Perm, append-nil, perm_middle}
use mathlib.Core.List.Perm
use echoryn.Prelude.{
  ℕ, suc, ◌-◌, ◌<◌, ◌≡◌, refl, sym, ◌∙◌, Bool, false, List, [], ◌∷◌, ◌++◌, some, arith, length,
  get_elem?, take, length-append, length-take, get_elem?-some, get_elem?-take, get_elem?-append,
  take-append-last, ltb, ◌==◌, if◌then◌else◌, Bool-cases, inl, inr, lt→ltb,
}
use echoryn.Scheduler.Heap.{parent, pop_last, up, down, heap_push, heap_pop, heap_remove}
use echoryn.Scheduler.Heap.Order.{
  IsOrder, Shuffled, Shuffled-trans, Swapped, swap_lem, IsHeap, ole_trans,
}
use echoryn.Scheduler.Heap.Up.{UpInv, up_restores}
use echoryn.Scheduler.Heap.Down.{DownInv, down_restores, OpenInv, down_places}

module _ {ℓ} {A : Type ℓ} (less : A → A → Bool) (order : IsOrder less) where
  pub heap_push_lem :
      (a : List A) (x : A)
      → IsHeap less (length a) a
      → (b : List A) × (heap_push less a x ≡ some b)
        × Perm b (x ∷ a)
        × (length b ≡ suc (length a))
        × IsHeap less (length b) b
  unfolding heap_push
  heap_push_lem a x h =
      let (b, e, heap, s) =
        up_restores less order (suc (length a)) (a ++ (x ∷ [])) (length a) start in
      (
        b,
        e,
        Perm.trans s.same at_end,
        s.size ∙ size,
        λ c p q. heap c p (omega (arith, s.size, size)),
      )
    where
      size : length (a ++ (x ∷ [])) ≡ suc (length a)
      size = omega (arith, length-append a (x ∷ []))

      at_end : Perm (a ++ (x ∷ [])) (x ∷ a)
      at_end = rw (append-nil a) at (perm_middle {a = x} a [])

      start : UpInv less order (suc (length a)) (a ++ (x ∷ [])) (length a)
      start = record {
        inside = omega arith;
        held = omega (arith, size);
        edges = λ c p q r.
            ground
              (arith, h c, get_elem?-append a (x ∷ []) c, get_elem?-append a (x ∷ []) (parent c));
        bridged = λ c p q r t. absurd (omega arith);
      }

  -- Taking the last entry of a list whose other entries are a heap.
  pop_last_lem :
      (a : List A) (n : ℕ)
      → length a ≡ suc n
      → IsHeap less n a
      → (x : A) × (b : List A) × (pop_last a ≡ some (x, b))
        × (get_elem? a n ≡ some x)
        × Perm (x ∷ b) a
        × (length b ≡ n)
        × IsHeap less n b
  unfolding pop_last
  pop_last_lem a n size heap =
      let (x, ex) = get_elem?-some a n (omega arith) in
      let whole : take n a ++ (x ∷ []) ≡ a = take-append-last n a x size ex in
      let cut : length a - 1 ≡ n = omega arith in
      rw (cut, ex)
        (
          x,
          take n a,
          refl,
          refl,
          Perm.symm (rw (append-nil (take n a), whole) at (perm_middle {a = x} (take n a) [])),
          omega (arith, length-take n a),
          λ c p q.
              rw (get_elem?-take n a c q, get_elem?-take n a (parent c) (omega arith)) (heap c p q),
        )

  -- What a call that takes the entry of index `i` leaves.
  pub record Taken (a : List A) (i : ℕ) (x : A) (b : List A) : Type ℓ where
    pub taken : get_elem? a i ≡ some x
    pub same : Perm (x ∷ b) a
    pub size : suc (length b) ≡ length a
    pub heap : IsHeap less (length b) b

  -- What stands at the end after the swap and the loop is the entry asked for.
  at_end :
      (a s b : List A) (i n : ℕ) (x : A)
      → Swapped a i n s
      → Shuffled n s b
      → get_elem? b n ≡ some x
      → get_elem? a i ≡ some x
  at_end a s b i n x w t top =
      let landed : get_elem? s n ≡ get_elem? a i = ground (arith, w.at n) in
      sym landed ∙ sym (t.outside n (omega arith)) ∙ top

  top-DownInv :
      (a s : List A) (n : ℕ)
      → length a ≡ suc n
      → IsHeap less (length a) a
      → Swapped a 0 n s
      → DownInv less order n s 0
  top-DownInv a s n size h w = record {
    inside = omega arith;
    held = omega (arith, w.size);
    edges = λ c p q r. ground (arith, w.at c, w.at (parent c), h c);
    bridged = λ c p q r t. absurd (omega arith);
  }

  -- What the end of the list gives once the loops have run.
  finish :
      (a s c : List A) (n i : ℕ)
      → length a ≡ suc n
      → Swapped a i n s
      → Shuffled n s c
      → IsHeap less n c
      → (x : A) × (b : List A) × (pop_last c ≡ some (x, b)) × Taken a i x b
  finish a s c n i size w t heap =
      let (x, r, ex, top, same, short, rest) =
        pop_last_lem c n (omega (arith, t.size, w.size)) heap in
      (
        x,
        r,
        ex,
        record {
          taken = at_end a s c i n x w t top;
          same = Perm.trans same (Perm.trans t.same w.same);
          size = omega (arith, short);
          heap = λ d p q. rest d p (omega (arith, short));
        },
      )

  pub heap_pop_lem :
      (a : List A)
      → 0 < length a
      → IsHeap less (length a) a
      → (x : A) × (b : List A) × (heap_pop less a ≡ some (x, b)) × Taken a 0 x b
  unfolding heap_pop
  heap_pop_lem a pos h =
      let n = length a - 1 in
      let (s, w) = swap_lem a 0 n pos (omega arith) in
      let (b, k, e, heap, t, far) =
        down_restores less order n s 0 (top-DownInv a s n (omega arith) h w) in
      let (x, r, ex, all) = finish a s b n 0 (omega arith) w t heap in
      rw (w.runs, e, ex) (x, r, refl, all)

  -- The last entry, moved to the place of another, may be out of order there.
  moved-OpenInv :
      (a s : List A) (n i : ℕ)
      → length a ≡ suc n
      → i < n
      → IsHeap less (length a) a
      → Swapped a i n s
      → OpenInv less order n s i
  moved-OpenInv a s n i size hi h w = record {
    inside = hi;
    held = omega (arith, w.size);
    edges = λ c p q r t. ground (arith, w.at c, w.at (parent c), h c);
    bridged = λ c p q r t. ground (
      arith,
      w.at c,
      w.at (parent i),
      h c,
      h i,
      ole_trans less order (get_elem? a (parent i)) (get_elem? a i) (get_elem? a c),
    );
  }

  -- `down`, and `up` where `down` did not move the entry.
  settle :
      (n : ℕ) (s : List A) (i : ℕ)
      → OpenInv less order n s i
      → (b : List A) × (k : ℕ) × (c : List A) × (down less s i n ≡ some (b, k))
        × ((if ltb i k then some b else up less b i) ≡ some c)
        × IsHeap less n c
        × Shuffled n s c
  settle n s i v =
      let (b, k, e, t, how) = down_places less order n s i v in
      elim how [
        | inl (heap, far) ↦ (b, k, b, e, rw (lt→ltb i k far) refl, heap, t)
        | inr (inv, stay) ↦
            let (c, ec, heap, u) = up_restores less order n b i inv in
            let still : ltb i k ≡ false = ground arith in
            (b, k, c, e, rw still ec, heap, Shuffled-trans t u)
      ]

  last_entry :
      (a : List A) (n i : ℕ)
      → length a ≡ suc n
      → n ≡ i
      → IsHeap less (length a) a
      → (x : A) × (b : List A) × (pop_last a ≡ some (x, b)) × Taken a i x b
  last_entry a n i size e h =
      let (x, r, ex, top, same, short, rest) =
        pop_last_lem a n size (λ c p q. h c p (omega arith)) in
      (
        x,
        r,
        ex,
        record {
          taken = rw e at top;
          same = same;
          size = omega (arith, short);
          heap = λ c p q. rest c p (omega (arith, short));
        },
      )

  pub heap_remove_lem :
      (a : List A) (i : ℕ)
      → i < length a
      → IsHeap less (length a) a
      → (x : A) × (b : List A) × (heap_remove less a i ≡ some (x, b)) × Taken a i x b
  unfolding heap_remove
  heap_remove_lem a i hi h =
      let n = length a - 1 in
      elim (Bool-cases (n == i)) [
        | inl last ↦
            let (x, r, ex, all) = last_entry a n i (omega arith) (ground arith) h in
            rw (last, ex) (x, r, refl, all)
        | inr inner ↦
            let low : i < n = ground arith in
            let (s, w) = swap_lem a i n hi (omega arith) in
            let (b, k, c, eb, ec, heap, t) =
              settle n s i (moved-OpenInv a s n i (omega arith) low h w) in
            let (x, r, ex, all) = finish a s c n i (omega arith) w t heap in
            rw (inner, w.runs, eb, ec, ex) (x, r, refl, all)
      ]
