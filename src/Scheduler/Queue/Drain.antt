-- ===== src/Scheduler/Queue/Drain.antt =====
-- internal/hivemind/service/scheduler/queue.go: Drain.
use mathlib.Core.List.{Perm, Pairwise, append-nil, append_assoc, mem-cons_of_mem}
use mathlib.Core.List.Perm
use echoryn.Prelude.{
  ℕ, zero, suc, ◌+◌, ◌<◌, ◌≡◌, refl, ◌∙◌, List, [], ◌∷◌, ◌++◌, map, some, length, arith, ◌==◌, inl,
  inr, Bool-cases,
}
use echoryn.Scheduler.Types.{ScheduleRequest}
use echoryn.Scheduler.Heap.Calls.{heap_pop_lem}
use echoryn.Scheduler.Queue.{HeapItem, item_less, PriorityQueue, drain_loop, drain}
use echoryn.Scheduler.Queue.Rank.{item_less-IsOrder, InOrder, item_less-InOrder}
use echoryn.Scheduler.Queue.Insert.{IsValid}
use echoryn.Scheduler.Queue.Remove.{Taken-IsValid, root-first}

abbrev requests : List HeapItem → List ScheduleRequest
requests xs = map (λ x. x.request) xs

-- Each item is in order with every later one.
abbrev pub IsSorted : List HeapItem → Type 0
IsSorted = Pairwise InOrder

drain_loop_lem :
    (f : ℕ) (q : PriorityQueue) (out : List ScheduleRequest)
    → length q.heap < f
    → IsValid q
    → (xs : List HeapItem) × (drain_loop f q out
        ≡ some (out ++ requests xs, record q { heap = [] }))
      × Perm xs q.heap
      × IsSorted xs
unfolding drain_loop
drain_loop_lem zero q out h v = absurd (omega arith)
drain_loop_lem (suc f) q out h v = elim (Bool-cases (length q.heap == 0)) [
  | inl done ↦
      let nothing : q.heap ≡ [] = grind arith in
      rw (done, nothing) ([], rw append-nil refl, Perm.nil, Pairwise.nil)
  | inr more ↦
      let (x, b, e, t) = heap_pop_lem item_less item_less-IsOrder q.heap (ground arith) v.heap in
      let (xs, run, same, sorted) =
        drain_loop_lem f (record q { heap = b }) (out ++ (x.request ∷ [])) (omega (arith, t.size))
          (Taken-IsValid q 0 x b v t) in
      let all = Perm.trans (Perm.cons x same) t.same in
      rw (more, e)
        (
          x ∷ xs,
          run ∙ rw (append_assoc out (x.request ∷ []) (requests xs)) refl,
          all,
          Pairwise.cons
              (λ y m.
                item_less-InOrder x y (
                  root-first q.heap x v.heap t.taken y
                    ((Perm.mem_iff all).0 (mem-cons_of_mem x m))))
              sorted,
        )
]

-- Drain empties a valid queue and returns all its requests: those of a higher priority first, and
-- among equals those put in earlier first.
pub drain_correct :
    (q : PriorityQueue)
    → IsValid q
    → (xs : List HeapItem) × (drain q ≡ some (map (λ x. x.request) xs, record q { heap = [] }))
      × Perm xs q.heap
      × IsSorted xs
unfolding drain
drain_correct q v = drain_loop_lem (length q.heap + 1) q [] (omega arith) v
