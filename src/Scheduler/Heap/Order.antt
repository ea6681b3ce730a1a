-- ===== src/Scheduler/Heap/Order.antt =====
-- Total preorders, the heap order of a list under its indices, and what a swap does.
use mathlib.Core.List.{Perm}
use mathlib.Core.List.Perm
use echoryn.Prelude.{
  ℕ, zero, suc, ◌≤◌, ◌<◌, ◌≡◌, refl, Bool, true, false, not, List, [], ◌∷◌, Option, none, some,
  arith, length, get_elem?, set, length-set, get_elem?-set, get_elem?-some, ◌==◌, if◌then◌else◌,
}
use echoryn.Scheduler.Heap.{parent, swap, less_at}

-- What `less` has to be: "not after" is total and transitive.
pub record IsOrder {ℓ} {A : Type ℓ} (less : A → A → Bool) : Type ℓ where
  pub asym : (x y : A) → less x y ≡ true → less y x ≡ false
  pub trans : (x y z : A) → less y x ≡ false → less z y ≡ false → less z x ≡ false

-- `b` holds the entries of `a`, and agrees with it from `n` on.
pub record Shuffled {ℓ} {A : Type ℓ} (n : ℕ) (a b : List A) : Type ℓ where
  pub same : Perm b a
  pub size : length b ≡ length a
  pub outside : (c : ℕ) → n ≤ c → get_elem? b c ≡ get_elem? a c

module _ {ℓ} {A : Type ℓ} where
  pub Shuffled-refl : {n : ℕ} {a : List A} → Shuffled n a a
  Shuffled-refl = record { same = Perm.rfl; size = refl; outside = λ c h. refl }

  pub Shuffled-trans : {n : ℕ} {a b c : List A} → Shuffled n a b → Shuffled n b c → Shuffled n a c
  Shuffled-trans s t = record {
    same = Perm.trans t.same s.same;
    size = cc (s.size, t.size);
    outside = λ i h. cc (s.outside i h, t.outside i h);
  }

  -- A write trades the old entry for the new one.
  set-Perm : (a : List A) (i : ℕ) (x v : A) → get_elem? a i ≡ some x → Perm (x ∷ set a i v) (v ∷ a)
  set-Perm [] i x v e = cc
  set-Perm (y ∷ a) zero x v e = let same : x ≡ y = cc in rw same (Perm.swap v y a)
  set-Perm (y ∷ a) (suc i) x v e =
      Perm.trans (Perm.swap y x _) (Perm.trans (Perm.cons y (set-Perm a i x v e)) (Perm.swap v y a))

  pub record Swapped (a : List A) (i j : ℕ) (s : List A) : Type ℓ where
    pub runs : swap a i j ≡ some s
    pub size : length s ≡ length a
    pub same : Perm s a
    pub at :
        (c : ℕ)
        → get_elem? s c
          ≡ (if c == j then get_elem? a i else if c == i then get_elem? a j else get_elem? a c)

  pub swap_lem :
      (a : List A) (i j : ℕ) → i < length a → j < length a → (s : List A) × Swapped a i j s
  unfolding swap
  swap_lem a i j hi hj =
      let (x, ex) = get_elem?-some a i hi in
      let (y, ey) = get_elem?-some a j hj in
      let b = set a i y in
      let inside : j < length b = rw length-set hj in
      let kept : get_elem? b j ≡ some y = ground (arith, get_elem?-set a i j y hi) in
      (
        set b j x,
        record {
          runs = rw (ex, ey) refl;
          size = simp length-set;
          same = Perm.cons_inv (Perm.trans (set-Perm b j y x kept) (set-Perm a i x y ex));
          at = λ c. rw (get_elem?-set b j c x inside, get_elem?-set a i c y hi, ex, ey) refl;
        },
      )

  pub Swapped-Shuffled :
      {a s : List A} {i j n : ℕ} → i < n → j < n → Swapped a i j s → Shuffled n a s
  Swapped-Shuffled hi hj w = record {
    same = w.same;
    size = w.size;
    outside = λ c h. ground (arith, w.at c);
  }

module _ {ℓ} {A : Type ℓ} (less : A → A → Bool) where
  -- Not after, on the entries of a list; a missing entry stands first.
  abbrev pub ole : Option A → Option A → Bool
  ole none p = true
  ole (some x) none = false
  ole (some x) (some y) = not (less y x)

  -- The edges of the tree below index `n` are in order.
  abbrev pub IsHeap : ℕ → List A → Type 0
  IsHeap n a = (c : ℕ) → 0 < c → c < n → ole (get_elem? a (parent c)) (get_elem? a c) ≡ true

  -- The edges past `i`, from its parent to its children, are in order.
  abbrev pub IsBridged : ℕ → List A → ℕ → Type 0
  IsBridged n a i =
      (c : ℕ)
      → 0 < c
      → c < n
      → parent c ≡ i
      → 0 < i
      → ole (get_elem? a (parent i)) (get_elem? a c) ≡ true

  pub less_at_lem :
      (a : List A) (i j : ℕ)
      → i < length a
      → j < length a
      → less_at less a i j ≡ some (not (ole (get_elem? a j) (get_elem? a i)))
  unfolding less_at
  less_at_lem a i j hi hj =
      let (x, ex) = get_elem?-some a i hi in
      let (y, ey) = get_elem?-some a j hj in rw (ex, ey) (not_not (less x y))
    where
      not_not : (b : Bool) → some b ≡ some (not (not b))
      not_not true = refl
      not_not false = refl

  module _ (order : IsOrder less) where
    pub ole_trans : (p q r : Option A) → ole p q ≡ true → ole q r ≡ true → ole p r ≡ true
    ole_trans none q r h k = refl
    ole_trans (some x) none r h k = cc
    ole_trans (some x) (some y) none h k = cc
    ole_trans (some x) (some y) (some z) h k = ground (arith, order.trans x y z)

    pub ole_total : (p q : Option A) → ole p q ≡ false → ole q p ≡ true
    ole_total none q h = cc
    ole_total (some x) none h = refl
    ole_total (some x) (some y) h = ground (arith, order.asym y x)

    root_first_below :
        (k n : ℕ) (a : List A) (i : ℕ)
        → IsHeap n a
        → i < k
        → i < n
        → ole (get_elem? a 0) (get_elem? a i) ≡ true
    root_first_below zero n a i h f p = absurd (omega arith)
    root_first_below (suc k) n a zero h f p = ole_self (get_elem? a 0)
      where
        ole_self : (p : Option A) → ole p p ≡ true
        ole_self p = ground (arith, ole_total p p)
    root_first_below (suc k) n a (suc i) h f p =
        ole_trans _ _ _ (root_first_below k n a (parent (suc i)) h (omega arith) (omega arith))
          (h (suc i) (omega arith) p)

    -- The root of a heap comes first.
    pub root_first :
        (n : ℕ) (a : List A) (i : ℕ)
        → IsHeap n a
        → i < n
        → ole (get_elem? a 0) (get_elem? a i) ≡ true
    root_first n a i h p = root_first_below (suc i) n a i h (omega arith) p
