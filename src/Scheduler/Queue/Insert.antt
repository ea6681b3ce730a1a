-- ===== src/Scheduler/Queue/Insert.antt =====
-- internal/hivemind/service/scheduler/queue.go: valid queues, and Enqueue.
use mathlib.Core.List.{Mem, Perm, forall_mem-cons, not-mem-nil}
use mathlib.Core.List.Perm
use mathlib.Core.Bool.{Bool-set}
use echoryn.Prelude.{
  ℤ, pos, int_ltb, int_same, next_int64, int_ltb_asym, next_int64_larger, ℕ, suc, ◌≡◌, refl, Bool,
  true, false, List, [], ◌∷◌, some, length, get_elem?, arith,
}
use echoryn.Scheduler.Types.{ScheduleRequest}
use echoryn.Scheduler.Heap.Order.{IsHeap}
use echoryn.Scheduler.Heap.Calls.{heap_push_lem}
use echoryn.Scheduler.Queue.{
  HeapItem, item_less, PriorityQueue, new_priority_queue, task_priority_to_int, enqueue,
}
use echoryn.Scheduler.Queue.Rank.{item_less-IsOrder}

-- The items are a heap, and the counter has passed the number of each.
pub record IsValid (q : PriorityQueue) : Type 0 where
  pub heap : IsHeap item_less (length q.heap) q.heap
  pub stamped : (x : HeapItem) → Mem x q.heap → int_ltb q.seq x.seq ≡ false

-- A Boolean property of the entries under each index is one of the members.
pub all_members {ℓ} :
    {A : Type ℓ} (f : A → Bool) (b : Bool) (xs : List A)
    → ((i : ℕ) (x : A) → get_elem? xs i ≡ some x → f x ≡ b)
    → (x : A) → Mem x xs
    → f x ≡ b
all_members f b [] h = λ x m. absurd (not-mem-nil m)
all_members f b (y ∷ xs) h =
    (forall_mem-cons λ x. Bool-set (f x) b).1
      (h 0 y refl, all_members f b xs (λ i x e. h (suc i) x e))

pub new_priority_queue-IsValid : IsValid new_priority_queue
new_priority_queue-IsValid = record {
  heap = λ c p q. absurd (omega arith);
  stamped = λ x m. absurd (not-mem-nil m);
}

-- The item that Enqueue makes.
abbrev pub stamp : PriorityQueue → ScheduleRequest → HeapItem
stamp q req = record {
  request = req;
  priority = task_priority_to_int req.task.priority;
  seq = next_int64 q.seq;
}

-- The queue holds the new item too, whose number is larger than all others.
pub record Enqueued (q : PriorityQueue) (req : ScheduleRequest) (q' : PriorityQueue) : Type 0 where
  pub valid : IsValid q'
  pub same : Perm q'.heap (stamp q req ∷ q.heap)
  pub later : (x : HeapItem) → Mem x q.heap → int_ltb x.seq (stamp q req).seq ≡ true
  pub counter : q'.seq ≡ next_int64 q.seq

-- As long as the counter is below the largest int64, Enqueue adds exactly the request to a valid
-- queue, with its priority and a number larger than all others, and leaves the queue valid.
pub enqueue_correct :
    (q : PriorityQueue) (req : ScheduleRequest)
    → int_same q.seq (pos 0x7FFFFFFFFFFFFFFF) ≡ false
    → IsValid q
    → (q' : PriorityQueue) × (enqueue q req ≡ some q') × Enqueued q req q'
unfolding enqueue
enqueue_correct q req room v =
    let (b, e, same, size, heap) =
      heap_push_lem item_less item_less-IsOrder q.heap (stamp q req) v.heap in
    let newer =
      λ (x : HeapItem) (m : Mem x q.heap). next_int64_larger x.seq q.seq room (v.stamped x m) in
    rw e (
      record { heap = b; seq = next_int64 q.seq },
      refl,
      record {
        valid = record {
          heap = heap;
          stamped = λ x m.
              (forall_mem-cons (λ y. Bool-set (int_ltb (next_int64 q.seq) y.seq) false)).1
                (
                  int_irrefl (next_int64 q.seq),
                  λ y k. int_ltb_asym y.seq (next_int64 q.seq) (newer y k),
                )
                x ((Perm.mem_iff same).0 m);
        };
        same = same;
        later = newer;
        counter = refl;
      },
    )
  where
    int_irrefl : (a : ℤ) → int_ltb a a ≡ false
    int_irrefl (pos a) = ground arith
    int_irrefl (ℤ.negsuc a) = ground arith
