-- ===== src/Scheduler/Queue.antt =====
-- internal/hivemind/service/scheduler/queue.go: the priority queue over container/heap. The mutex makes
-- each method atomic, so a method is a function of the queue. `none` is a run-time panic or a loop that
-- does not end. The field `index` of an item, which nothing reads, is left out.
pub mod Rank
pub mod Insert
pub mod Remove
pub mod Drain
use echoryn.Prelude.{
  Text, same, ℤ, pos, int_ltb, int_same, next_int64, ℕ, zero, suc, ◌+◌, Bool, true, false, List, [],
  ◌∷◌, ◌++◌, Option, none, some, length, get_elem?, ◌==◌, if◌then◌else◌, ◌>>=◌,
}
use echoryn.Scheduler.Types.{ScheduleRequest}
use echoryn.Scheduler.Heap.{heap_push, heap_pop, heap_remove}

pub record HeapItem : Type 0 where
  pub request : ScheduleRequest
  pub priority : ℤ
  pub seq : ℤ

unfoldable pub item_less : HeapItem → HeapItem → Bool
item_less x y =
    if int_same x.priority y.priority then int_ltb x.seq y.seq else int_ltb y.priority x.priority

pub record PriorityQueue : Type 0 where
  pub heap : List HeapItem
  pub seq : ℤ

abbrev pub new_priority_queue : PriorityQueue
new_priority_queue = record { heap = []; seq = pos 0 }

abbrev pub task_priority_to_int : ℤ → ℤ
task_priority_to_int p = p

unfoldable pub enqueue : PriorityQueue → ScheduleRequest → Option PriorityQueue
unfolding item_less heap_push
enqueue q req =
    let item : HeapItem = record {
      request = req;
      priority = task_priority_to_int req.task.priority;
      seq = next_int64 q.seq;
    } in
    do h ← heap_push item_less q.heap item; some (record { heap = h; seq = next_int64 q.seq })

unfoldable pub dequeue : PriorityQueue → Option (Option ScheduleRequest × PriorityQueue)
unfolding item_less heap_pop
dequeue q =
    if length q.heap == 0
    then some (none, q)
    else do (item, h) ← heap_pop item_less q.heap; some (some item.request, record q { heap = h })

unfoldable pub peek : PriorityQueue → Option (Option ScheduleRequest)
peek q =
    if length q.heap == 0 then some none else do item ← get_elem? q.heap 0; some (some item.request)

abbrev pub len : PriorityQueue → ℕ
len q = length q.heap

-- The range loop of Remove, from index `i` on.
unfoldable pub index_of : List HeapItem → Text → ℕ → Option ℕ
index_of [] task_id i = none
index_of (item ∷ rest) task_id i =
    if same item.request.task.id task_id then some i else index_of rest task_id (suc i)

unfoldable pub remove : PriorityQueue → Text → Option (Bool × PriorityQueue)
unfolding item_less heap_remove index_of
remove q task_id = elim (index_of q.heap task_id 0) [
  | some i ↦ do (_, h) ← heap_remove item_less q.heap i; some (true, record q { heap = h })
  | none ↦ some (false, q)
]

unfoldable pub drain_loop :
    ℕ → PriorityQueue → List ScheduleRequest → Option (List ScheduleRequest × PriorityQueue)
unfolding item_less heap_pop
drain_loop zero q result = none
drain_loop (suc f) q result = if length q.heap == 0 then some (result, q) else do
  (item, h) ← heap_pop item_less q.heap
  drain_loop f (record q { heap = h }) (result ++ (item.request ∷ []))

unfoldable pub drain : PriorityQueue → Option (List ScheduleRequest × PriorityQueue)
unfolding drain_loop
drain q = drain_loop (length q.heap + 1) q []
