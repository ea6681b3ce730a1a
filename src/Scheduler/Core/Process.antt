-- ===== src/Scheduler/Core/Process.antt =====
-- internal/hivemind/service/scheduler/scheduler.go: what a round of processQueue does.
use mathlib.Core.List.{Mem, Perm, append-nil, mem-append_right, mem-cons_of_mem, mem-cons_self}
use mathlib.Core.List.Perm
use echoryn.Prelude.{
  insert_keeps, Text, lookup, ℕ, zero, suc, ◌+◌, ◌<◌, ◌≡◌, ◌≢◌, refl, ap, ◌∙◌, ◌⊎◌, inl, inr, true,
  List, [], ◌∷◌, ◌++◌, All, some, none, length, arith, ◌==◌, Bool-cases, ◌>>=◌,
}
use echoryn.Scheduler.Types.{Task, ScheduleRequest}
use echoryn.Scheduler.Queue.{HeapItem, PriorityQueue, peek, dequeue}
use echoryn.Scheduler.Queue.Rank.{InOrder}
use echoryn.Scheduler.Queue.Remove.{TakesOut, dequeue_correct}
use echoryn.Scheduler.Selector.{ScheduleDecision}
use echoryn.Scheduler.Monitor.{watch}
use echoryn.Scheduler.Core.{
  Scheduler, World, DispatchError, Dispatch, dispatched, not_dispatched, select_node, assign,
  start_task, try_dispatch, emit_event,
}
use echoryn.Scheduler.Core.Calls.{process_loop, process_queue}
use echoryn.Scheduler.Core.Soundness.{IsSound, with_queue}
use echoryn.Scheduler.Core.Attempts.{
  Attempt, Dispatch-cases, unselected, undelivered, delivered, try_dispatch-Attempt,
  Attempt-IsSound,
}

abbrev pub IsWatched : Text → Scheduler → Type 0
IsWatched k s = lookup k s.monitor.watched ≢ none

-- No entry of the first list comes after a later one or one of the second list.
abbrev pub Leads : List HeapItem → List HeapItem → Type 0
Leads [] rest = Unit
Leads (x ∷ out) rest = ((y : HeapItem) → Mem y (out ++ rest) → InOrder x y) × Leads out rest

-- The same world outside.
abbrev pub Fixed : Scheduler → Scheduler → Type 0
Fixed s s' = (s'.provider ≡ s.provider) × (s'.dispatcher ≡ s.dispatcher)

-- The scheduler `s'` is what a failed attempt for the item `x` left, and no other item comes before it.
pub record IsStuck (w : World) (s : Scheduler) (x : HeapItem) (s' : Scheduler) : Type 0 where
  pub before : Scheduler
  pub fixed : Fixed s before
  pub err : DispatchError
  pub failed : try_dispatch w x.request before ≡ (s', not_dispatched err)
  pub held : Mem x s'.queue.heap
  pub first : (y : HeapItem) → Mem y s'.queue.heap → InOrder x y

-- A round dispatches the items `out` and leaves the others.
pub record Processed (w : World) (s : Scheduler) (out : List HeapItem) (s' : Scheduler)
    : Type 0 where
  pub sound : IsSound s'
  pub shared : Perm (out ++ s'.queue.heap) s.queue.heap
  pub order : Leads out s'.queue.heap
  pub started : All (λ x. IsWatched x.request.task.id s') out
  pub watched : (k : Text) → IsWatched k s → IsWatched k s'
  pub counter : s'.queue.seq ≡ s.queue.seq
  pub stopped : (s'.queue.heap ≡ []) ⊎ ((x : HeapItem) × IsStuck w s x s')

-- What is watched after an attempt that the flag says to have dispatched.
Attempt-IsWatched :
    {w : World} {req : ScheduleRequest} {s : Scheduler} {out : Scheduler × Dispatch} (k : Text)
    → Attempt w req s out
    → IsWatched k s ⊎ ((req.task.id ≡ k) × (d : ScheduleDecision) × (out.1 ≡ dispatched d))
    → IsWatched k out.0
unfolding assign start_task emit_event watch
Attempt-IsWatched k (unselected err e) (inl h) = h
Attempt-IsWatched k (unselected err e) (inr (_, d, other)) = cc
Attempt-IsWatched k (undelivered found e lost) (inl h) = h
Attempt-IsWatched k (undelivered found e lost) (inr (_, d, other)) = cc
Attempt-IsWatched {w} {req} {s} k (delivered found e sent) (inl h) =
    insert_keeps req.task.id k _ s.monitor.watched (inl h)
Attempt-IsWatched {w} {req} {s} k (delivered found e sent) (inr (here, d, e2)) =
    insert_keeps req.task.id k _ s.monitor.watched (inr here)

Leads-rest :
    (x : HeapItem) (out rest whole : List HeapItem)
    → Perm (out ++ rest) whole
    → ((y : HeapItem) → Mem y whole → InOrder x y)
    → (y : HeapItem) → Mem y (out ++ rest)
    → InOrder x y
Leads-rest x out rest whole p h = λ y m. h y ((Perm.mem_iff p).0 m)

Attempt-Fixed :
    {w : World} {req : ScheduleRequest} {s : Scheduler} {out : Scheduler × Dispatch}
    → Attempt w req s out
    → Fixed s out.0
unfolding assign start_task emit_event
Attempt-Fixed (unselected err e) = (refl, refl)
Attempt-Fixed (undelivered found e lost) = (refl, refl)
Attempt-Fixed (delivered found e sent) = (refl, refl)

IsStuck-Fixed :
    {w : World} {s s1 s' : Scheduler} {x : HeapItem}
    → Fixed s s1
    → IsStuck w s1 x s'
    → IsStuck w s x s'
IsStuck-Fixed f st = record {
  before = st.before;
  fixed = (st.fixed.0 ∙ f.0, st.fixed.1 ∙ f.1);
  err = st.err;
  failed = st.failed;
  held = st.held;
  first = st.first;
}

stopped-Fixed :
    {w : World} {s s1 s' : Scheduler} {A : Type 0}
    → Fixed s s1
    → A ⊎ ((x : HeapItem) × IsStuck w s1 x s')
    → A ⊎ ((x : HeapItem) × IsStuck w s x s')
stopped-Fixed f (inl a) = inl a
stopped-Fixed f (inr (x, st)) = inr (x, IsStuck-Fixed f st)

abbrev pub Round : ℕ → World → Scheduler → Type 0
Round f w s =
    (out : List HeapItem) × (s' : Scheduler) × (process_loop f w s ≡ some s') × Processed w s out s'

-- A failed attempt ends the round.
process_stops :
    (f : ℕ) (w : World) (s : Scheduler) (x : HeapItem) (err : DispatchError)
    → IsSound s
    → peek s.queue ≡ some (some x.request)
    → Mem x s.queue.heap
    → ((y : HeapItem) → Mem y s.queue.heap → InOrder x y)
    → (try_dispatch w x.request s).1 ≡ not_dispatched err
    → Round (suc f) w s
unfolding process_loop
process_stops f w s x err h head member first e =
    let tried = try_dispatch-Attempt w x.request s in
    let (sound, queue, _) = Attempt-IsSound tried h in
    let s' = (try_dispatch w x.request s).0 in
    let stuck : IsStuck w s x s' = record {
      before = s;
      fixed = (refl, refl);
      err = err;
      failed = rw (← e) refl;
      held = rw queue member;
      first = rw queue first;
    } in
    (
      [],
      s',
      rw (head, ◌>>=◌, e) refl,
      record {
        sound = sound;
        shared = rw queue (Perm.refl s.queue.heap);
        order = tt;
        started = tt;
        watched = λ k m. Attempt-IsWatched k tried (inl m);
        counter = rw queue refl;
        stopped = inr (x, stuck);
      },
    )

-- A dispatched item is taken out, and the round goes on.
process_goes_on :
    (f : ℕ) (w : World) (s : Scheduler) (x : HeapItem) (q' : PriorityQueue) (d : ScheduleDecision)
    → IsSound s
    → peek s.queue ≡ some (some x.request)
    → dequeue s.queue ≡ some (some x.request, q')
    → TakesOut s.queue x q'
    → ((y : HeapItem) → Mem y s.queue.heap → InOrder x y)
    → (try_dispatch w x.request s).1 ≡ dispatched d
    → ((s1 : Scheduler) → IsSound s1 → s1.queue ≡ q' → Round f w s1)
    → Round (suc f) w s
unfolding process_loop
process_goes_on f w s x q' d h head taken t first e next =
    let tried = try_dispatch-Attempt w x.request s in
    let (sound, queue, _) = Attempt-IsSound tried h in
    let s1 : Scheduler = record ((try_dispatch w x.request s).0) { queue = q' } in
    let (out, s', run, p) =
      next s1 (with_queue (try_dispatch w x.request s).0 q' t.valid sound) refl in
    let shared = Perm.trans (Perm.cons x p.shared) t.same in
    (
      x ∷ out,
      s',
      rw (head, ◌>>=◌, e, queue, taken) run,
      record {
        sound = p.sound;
        shared = shared;
        order = (λ y m. first y ((Perm.mem_iff shared).0 (mem-cons_of_mem x m)), p.order);
        started = (
          p.watched x.request.task.id
              (Attempt-IsWatched x.request.task.id tried (inr (refl, d, e))),
          p.started,
        );
        watched = λ k m. p.watched k (Attempt-IsWatched k tried (inl m));
        counter = p.counter ∙ t.counter;
        stopped = stopped-Fixed (Attempt-Fixed tried) p.stopped;
      },
    )

process_loop_lem :
    (f : ℕ) (w : World) (s : Scheduler) → length s.queue.heap < f → IsSound s → Round f w s
unfolding process_loop peek
process_loop_lem zero w s h v = absurd (omega arith)
process_loop_lem (suc f) w s h v = elim (Bool-cases (length s.queue.heap == 0)) [
  | inl done ↦
      let nothing : s.queue.heap ≡ [] = grind arith in
      (
        [],
        s,
        rw (process_loop, peek, done) refl,
        record {
          sound = v;
          shared = Perm.refl s.queue.heap;
          order = tt;
          started = tt;
          watched = λ k m. m;
          counter = refl;
          stopped = inl nothing;
        },
      )
  | inr more ↦
      let (x, q', taken, head, t, first) = dequeue_correct s.queue (ground arith) v.queue in
      elim (Dispatch-cases (try_dispatch w x.request s).1) [
        | inl (err, e) ↦
            process_stops f w s x err v head ((Perm.mem_iff t.same).0 (mem-cons_self)) first e
        | inr (d, e) ↦
            process_goes_on f w s x q' d v head taken t first e
              λ s1 v1 same_queue. process_loop_lem f w s1 (rw same_queue (omega (arith, t.size))) v1
      ]
]

-- A round of processQueue over a sound scheduler always ends. It dispatches requests in the order of the
-- queue, each of which is watched then, and stops with an empty queue or at the first request whose
-- attempt fails, which stays in the queue with all that come after it.
pub process_queue_correct :
    (w : World) (s : Scheduler)
    → IsSound s
    → (out : List HeapItem) × (s' : Scheduler) × (process_queue w s ≡ some s')
      × Processed w s out s'
unfolding process_queue
process_queue_correct w s v = process_loop_lem (length s.queue.heap + 1) w s (omega arith) v

-- An attempt fails only as no node is selected or as the dispatch fails.
Attempt-failed :
    {w : World} {req : ScheduleRequest} {s : Scheduler} {out : Scheduler × Dispatch}
    {err : DispatchError} {d : ScheduleDecision}
    → Attempt w req s out
    → out.1 ≡ not_dispatched err
    → select_node w s.provider s.attempts req ≡ dispatched d
    → ((node : Text) (task : Task) → s.dispatcher s.attempts node task ≡ true)
    → ⊥
Attempt-failed (unselected err e) failed found sent = absurd cc
Attempt-failed {req} (undelivered d e lost) failed found sent =
    absurd (grind (arith, sent d.selected_node_id req.task))
Attempt-failed (delivered d e ok) failed found sent = absurd cc

-- If a node can be selected for each queued request at any attempt, and no dispatch fails, a round of
-- processQueue over a sound scheduler ends with an empty queue, and every request of the queue is watched.
pub process_queue_drains :
    (w : World) (s : Scheduler)
    → IsSound s
    → ((n : ℕ) (x : HeapItem)
        → Mem x s.queue.heap
        → (d : ScheduleDecision) × (select_node w s.provider n x.request ≡ dispatched d))
    → ((n : ℕ) (node : Text) (task : Task) → s.dispatcher n node task ≡ true)
    → (s' : Scheduler) × (process_queue w s ≡ some s')
      × (s'.queue.heap ≡ [])
      × ((out : List HeapItem) × Perm out s.queue.heap
          × All (λ x. IsWatched x.request.task.id s') out)
process_queue_drains w s v ready sent =
    let (out, s', run, p) = process_queue_correct w s v in
    let empty : s'.queue.heap ≡ [] = elim p.stopped [
      | inl none_left ↦ none_left
      | inr (x, st) ↦
          let member = (Perm.mem_iff p.shared).0 (mem-append_right out st.held) in
          absurd (never st (ready st.before.attempts x member) (sent st.before.attempts))
    ] in
    (s', run, empty, (out, rw (empty, append-nil) at p.shared, p.started))
  where
    never :
        {x : HeapItem} {s' : Scheduler} (st : IsStuck w s x s')
        → (d : ScheduleDecision) × (select_node w s.provider st.before.attempts x.request
            ≡ dispatched d)
        → ((node : Text) (task : Task) → s.dispatcher st.before.attempts node task ≡ true)
        → ⊥
    never {x} st (d, found) sent =
        Attempt-failed {d = d} (try_dispatch-Attempt w x.request st.before)
          (ap (λ p. p.1) st.failed) (rw (st.fixed.0) found)
          (λ node task. rw (st.fixed.1) (sent node task))
