-- ===== src/Scheduler/Queue/Remove.antt =====
-- internal/hivemind/service/scheduler/queue.go: Dequeue, Peek and Remove.
use mathlib.Core.List.{Mem, Perm, mem-cons_of_mem}
use mathlib.Core.List.Perm
use echoryn.Prelude.{
  Text, same, ℕ, zero, suc, ◌+◌, ◌<◌, ◌≡◌, refl, true, false, not, List, [], ◌∷◌, none, some,
  length, get_elem?, arith, ◌==◌, ◌⊎◌, inl, inr, Bool-cases, Option-cases, get_elem?-lt,
}
use echoryn.Scheduler.Heap.Order.{IsHeap, root_first}
use echoryn.Scheduler.Heap.Calls.{Taken, heap_pop_lem, heap_remove_lem}
use echoryn.Scheduler.Queue.{HeapItem, item_less, PriorityQueue, dequeue, peek, index_of, remove}
use echoryn.Scheduler.Queue.Rank.{item_less-IsOrder, InOrder, item_less-InOrder}
use echoryn.Scheduler.Queue.Insert.{IsValid, all_members}

-- No item of a heap comes before its root.
pub root-first :
    (h : List HeapItem) (x : HeapItem)
    → IsHeap item_less (length h) h
    → get_elem? h 0 ≡ some x
    → (y : HeapItem) → Mem y h
    → item_less y x ≡ false
root-first h x v e = all_members (λ y. item_less y x) false h (λ i y k. first i y k)
  where
    first : (i : ℕ) (y : HeapItem) → get_elem? h i ≡ some y → item_less y x ≡ false
    first i y k =
        let before =
          root_first item_less item_less-IsOrder (length h) h i v (get_elem?-lt h i y k) in
        let told : not (item_less y x) ≡ true = rw (e, k) at before in ground arith

-- Without the item that a call takes, the queue stays valid.
pub Taken-IsValid :
    (q : PriorityQueue) (i : ℕ) (x : HeapItem) (h : List HeapItem)
    → IsValid q
    → Taken item_less item_less-IsOrder q.heap i x h
    → IsValid (record q { heap = h })
Taken-IsValid q i x h v t = record {
  heap = t.heap;
  stamped = λ y m. v.stamped y ((Perm.mem_iff t.same).0 (mem-cons_of_mem x m));
}

-- A call takes the item `x` out of the queue `q`.
pub record TakesOut (q : PriorityQueue) (x : HeapItem) (q' : PriorityQueue) : Type 0 where
  pub valid : IsValid q'
  pub same : Perm (x ∷ q'.heap) q.heap
  pub size : suc (length q'.heap) ≡ length q.heap
  pub counter : q'.seq ≡ q.seq

-- From a valid queue that is not empty, Dequeue takes out an item that no other comes before: none has
-- a higher priority, and none of its priority was put in earlier. Peek returns the same request.
pub dequeue_correct :
    (q : PriorityQueue)
    → 0 < length q.heap
    → IsValid q
    → (x : HeapItem) × (q' : PriorityQueue) × (dequeue q ≡ some (some x.request, q'))
      × (peek q ≡ some (some x.request))
      × TakesOut q x q'
      × ((y : HeapItem) → Mem y q.heap → InOrder x y)
unfolding dequeue peek
dequeue_correct q some_left v =
    let (x, h, e, t) = heap_pop_lem item_less item_less-IsOrder q.heap some_left v.heap in
    let full : (length q.heap == 0) ≡ false = ground arith in
    rw (full, e, t.taken)
      (
        x,
        record q { heap = h },
        refl,
        refl,
        record { valid = Taken-IsValid q 0 x h v t; same = t.same; size = t.size; counter = refl },
        λ y m. item_less-InOrder x y (root-first q.heap x v.heap t.taken y m),
      )

index_of-some :
    (h : List HeapItem) (task_id : Text) (i k : ℕ)
    → index_of h task_id i ≡ some k
    → (d : ℕ) × (x : HeapItem) × (k ≡ i + d)
      × (get_elem? h d ≡ some x)
      × (same x.request.task.id task_id ≡ true)
unfolding index_of
index_of-some [] task_id i k e = cc
index_of-some (y ∷ h) task_id i k e = elim (Bool-cases (same y.request.task.id task_id)) [
  | inl found ↦ (0, y, ground arith, refl, found)
  | inr other ↦
      let (d, x, at, there, named) = index_of-some h task_id (suc i) k (rw other at e) in
      (suc d, x, omega arith, there, named)
]

index_of-none :
    (h : List HeapItem) (task_id : Text) (i d : ℕ) (x : HeapItem)
    → index_of h task_id i ≡ none
    → get_elem? h d ≡ some x
    → same x.request.task.id task_id ≡ false
unfolding index_of
index_of-none [] task_id i d x e k = cc
index_of-none (y ∷ h) task_id i zero x e k = let it : y ≡ x = grind arith in ground (arith, it)
index_of-none (y ∷ h) task_id i (suc d) x e k = ground (arith, index_of-none h task_id (suc i) d x)

-- Remove takes one item with the given task out of a valid queue and answers true, or answers false
-- and leaves the queue alone because no item has that task.
pub remove_correct :
    (q : PriorityQueue) (task_id : Text)
    → IsValid q
    → ((x : HeapItem) × (q' : PriorityQueue) × (remove q task_id ≡ some (true, q'))
        × (same x.request.task.id task_id ≡ true)
        × TakesOut q x q')
      ⊎ ((remove q task_id ≡ some (false, q))
          × ((y : HeapItem) → Mem y q.heap → same y.request.task.id task_id ≡ false))
unfolding remove
remove_correct q task_id v = elim (Option-cases (index_of q.heap task_id 0)) [
  | inl missing ↦ inr (
    rw (remove, missing) refl,
    all_members (λ y. same y.request.task.id task_id) false q.heap
        (λ d x. index_of-none q.heap task_id 0 d x missing),
  )
  | inr (i, found) ↦
      let (d, x, at, there, named) = index_of-some q.heap task_id 0 i found in
      let place : i ≡ d = omega (arith, at) in
      let here : get_elem? q.heap i ≡ some x = rw place there in
      let (y, h, e, t) =
        heap_remove_lem item_less item_less-IsOrder q.heap i (get_elem?-lt q.heap i x here)
          v.heap in
      let it : x ≡ y = ground (arith, t.taken) in
      inl (
        y,
        record q { heap = h },
        rw (remove, found, e) refl,
        rw it at named,
        record { valid = Taken-IsValid q i y h v t; same = t.same; size = t.size; counter = refl },
      )
]
