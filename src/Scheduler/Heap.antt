-- ===== src/Scheduler/Heap.antt =====
-- Go's container/heap, which internal/hivemind/service/scheduler/queue.go calls, over a list and an
-- order `less`. `none` is a run-time panic (an index out of range) or a loop that does not end; the
-- lemmas of the children rule both out. Indices stay below twice the length plus two, so that `int`
-- does not overflow.
pub mod Order
pub mod Up
pub mod Down
pub mod Calls
use echoryn.Prelude.{
  ℕ, zero, suc, ◌+◌, ◌-◌, ◌*◌, ◌/◌, Bool, not, false, List, [], ◌∷◌, ◌++◌, Option, none, some,
  length, get_elem?, set, take, ◌==◌, ltb, leb, if◌then◌else◌, ◌>>=◌,
}

abbrev pub parent : ℕ → ℕ
parent j = (j - 1) / 2

module _ {ℓ} {A : Type ℓ} where
  unfoldable pub swap : List A → ℕ → ℕ → Option (List A)
  swap a i j = do x ← get_elem? a i; y ← get_elem? a j; some (set (set a i y) j x)

  -- What the Push of the slice leaves.
  abbrev pub push_last : List A → A → List A
  push_last a x = a ++ (x ∷ [])

  -- The last entry and the rest, what the Pop of the slice returns and leaves.
  unfoldable pub pop_last : List A → Option (A × List A)
  pop_last a = do x ← get_elem? a (length a - 1); some (x, take (length a - 1) a)

module _ {ℓ} {A : Type ℓ} (less : A → A → Bool) where
  unfoldable pub less_at : List A → ℕ → ℕ → Option Bool
  less_at a i j = do x ← get_elem? a i; y ← get_elem? a j; some (less x y)

  unfoldable pub up_loop : ℕ → List A → ℕ → Option (List A)
  up_loop zero a j = none
  up_loop (suc f) a j = if parent j == j then some a else do
    b ← less_at a j (parent j)
    if b then (do s ← swap a (parent j) j; up_loop f s (parent j)) else some a

  unfoldable pub up : List A → ℕ → Option (List A)
  unfolding up_loop
  up a j = up_loop (j + 1) a j

  -- The child of `i` that comes first, of those below `n`.
  unfoldable pub first_child : List A → ℕ → ℕ → Option ℕ
  first_child a i n = do
    right ← if ltb (2 * i + 2) n then less_at a (2 * i + 2) (2 * i + 1) else some false
    some (if right then 2 * i + 2 else 2 * i + 1)

  -- The new list, and the index that the entry reached.
  unfoldable pub down_loop : ℕ → List A → ℕ → ℕ → Option (List A × ℕ)
  down_loop zero a i n = none
  down_loop (suc f) a i n = if leb n (2 * i + 1) then some (a, i) else do
    j ← first_child a i n
    b ← less_at a j i
    if b then (do s ← swap a i j; down_loop f s j n) else some (a, i)

  unfoldable pub down : List A → ℕ → ℕ → Option (List A × ℕ)
  unfolding down_loop
  down a i n = down_loop (n + 1) a i n

  unfoldable pub heap_push : List A → A → Option (List A)
  unfolding up
  heap_push a x = up (push_last a x) (length a)

  unfoldable pub heap_pop : List A → Option (A × List A)
  unfolding down swap pop_last
  heap_pop a = do s ← swap a 0 (length a - 1); (b, _) ← down s 0 (length a - 1); pop_last b

  unfoldable pub heap_remove : List A → ℕ → Option (A × List A)
  unfolding down up swap pop_last
  heap_remove a i =
      let n = length a - 1 in
      if n == i then pop_last a else do
        s ← swap a i n
        (b, k) ← down s i n
        c ← if ltb i k then some b else up b i
        pop_last c
