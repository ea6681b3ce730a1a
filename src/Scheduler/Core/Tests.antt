-- ===== src/Scheduler/Core/Tests.antt =====
-- internal/hivemind/service/scheduler/scheduler.go: runs of the scheduler, and the theorems at concrete inputs.
use echoryn.Prelude.{
  Text, codes, lookup, ℕ, suc, ◌+◌, ◌≡◌, refl, Bool, true, false, List, [], ◌∷◌, some, none, ◌>>=◌,
  ◌==◌, not, arith, map, length, All, same, get_elem?,
}
use mathlib.Core.List.{Mem, Perm}
use echoryn.Scheduler.Heap.{first_child, less_at}
use echoryn.Scheduler.Types.{TaskState, status_other, status_cancelled, status_assigned}
use echoryn.Scheduler.Queue.{HeapItem}
use echoryn.Scheduler.Queue.Insert.{all_members}
use echoryn.Scheduler.Selector.{ScheduleDecision}
use echoryn.Scheduler.Monitor.{stalled, check_tasks}
use echoryn.Scheduler.Insertion.{insertion_sort}
use echoryn.Scheduler.Tests.{low, high, held, held-IsValid, nodes, by_load}
use echoryn.Scheduler.Core.{
  default_scheduler_config, new_scheduler, Scheduler, World, TaskResult, select_node, dispatched,
  Dispatch, CompletedSchedulerConfig,
}
use echoryn.Scheduler.Core.Calls.{
  schedule, status, cancel, on_task_stalled, poll, process_queue, report_result, ScheduleResult,
  result_status,
}
use echoryn.Scheduler.Core.Soundness.{IsSound, Counts, new_scheduler-IsSound, with_queue}
use echoryn.Scheduler.Core.Process.{
  Processed, IsWatched, process_queue_correct, process_queue_drains,
}
use echoryn.Scheduler.Core.Schedule.{Scheduled, schedule_correct}
use echoryn.Scheduler.Core.Handlers.{Stall, on_task_stalled_correct, poll_correct}
use echoryn.Scheduler.Core.Endings.{
  Ended, Cancelled, Tallied, cancel_correct, report_result_correct,
}
use echoryn.Scheduler.Core.Run.{Call, submits, aborts, fires, ticks, ends, run, run-IsSound}

abbrev world : World
world = record {
  scoring = by_load;
  sort = insertion_sort;
  begun = λ n. 10;
  decided = λ n. 12;
  sent = λ n. 15;
}

abbrev pending : TaskState
pending = record {
  status = status_other (codes "pending");
  assigned_node_id = [];
  started_at = none;
  completed_at = none;
}

-- The first dispatch fails.
abbrev settings : CompletedSchedulerConfig
settings = record {
  config = default_scheduler_config;
  provider = λ n. some nodes;
  dispatcher = λ n node task. not (n == 0);
}

abbrev fresh : Scheduler
fresh = new_scheduler settings (λ a. pending)

fresh-IsSound : IsSound fresh
fresh-IsSound = new_scheduler-IsSound settings (λ a. pending)

abbrev loaded : Scheduler
loaded = record fresh { queue = held; attempts = 1 }

loaded-IsSound : IsSound loaded
loaded-IsSound = with_queue fresh held held-IsValid fresh-IsSound

fresh-Counts : Counts 0 fresh
fresh-Counts = (0, refl, omega arith)

loaded-Counts : Counts 3 loaded
loaded-Counts = (3, refl, omega arith)

-- The first attempt fails, and the request waits; the second dispatches it.
two_attempts :
    (schedule world 5 (some low) fresh >>= λ p.
    process_queue world p.0 >>= λ s. status (codes "low") s)
    ≡ some (
      low.task,
      record {
        status = status_assigned;
        assigned_node_id = codes "n1";
        started_at = some 12;
        completed_at = none;
      },
    )
unfolding schedule process_queue status same
two_attempts = refl

schedule_correct_example :
    (s' : Scheduler) × (r : ScheduleResult) × (schedule world 5 (some low) fresh ≡ some (s', r))
    × IsSound s'
    × Counts 1 s'
    × (s'.stats.stats.total_submitted ≡ suc fresh.stats.stats.total_submitted)
    × Scheduled world low fresh s' r
schedule_correct_example =
    schedule_correct world 5 0 low fresh fresh-IsSound fresh-Counts (omega arith)

process_queue_correct_example :
    (out : List HeapItem) × (s' : Scheduler) × (process_queue world loaded ≡ some s')
    × Processed world loaded out s'
process_queue_correct_example = process_queue_correct world loaded loaded-IsSound

abbrev reliable : Scheduler
reliable = record loaded { dispatcher = λ n node task. true }

abbrev is_dispatched : Dispatch → Bool
is_dispatched (dispatched d) = true
is_dispatched _ = false

found_one : (o : Dispatch) → is_dispatched o ≡ true → (d : ScheduleDecision) × (o ≡ dispatched d)
found_one (dispatched d) e = (d, refl)
found_one (Dispatch.not_dispatched err) e = absurd cc

each_selected :
    (n : ℕ) (x : HeapItem)
    → Mem x reliable.queue.heap
    → (d : ScheduleDecision) × (select_node world reliable.provider n x.request ≡ dispatched d)
unfolding select_node same
each_selected n x m = found_one (select_node world reliable.provider n x.request) (
    all_members (λ y. is_dispatched (select_node world reliable.provider n y.request)) true
      held.heap each x m)
  where
    each :
        (i : ℕ) (y : HeapItem)
        → get_elem? held.heap i ≡ some y
        → is_dispatched (select_node world reliable.provider n y.request) ≡ true
    each ℕ.zero y e = grind arith
    each (suc ℕ.zero) y e = grind arith
    each (suc (suc ℕ.zero)) y e = grind arith
    each (suc (suc (suc i))) y e = cc

process_queue_drains_example :
    (s' : Scheduler) × (process_queue world reliable ≡ some s')
    × (s'.queue.heap ≡ [])
    × ((out : List HeapItem) × Perm out reliable.queue.heap
        × All (λ x. IsWatched x.request.task.id s') out)
process_queue_drains_example =
    process_queue_drains world reliable loaded-IsSound each_selected λ n node task. refl

abbrev failure : TaskResult
failure = record { task_id = codes "high"; success = false; error = codes "exit 1" }

abbrev story : List Call
story =
    submits 5 (some low)
    ∷ submits 6 (some high)
    ∷ ticks
    ∷ fires 70 (codes "low") stalled
    ∷ ends 80 failure
    ∷ aborts 90 (codes "low")
    ∷ []

abbrev names : Scheduler → List Text × List Text
names s = (map (λ p. p.0) s.monitor.watched, map (λ x. x.request.task.id) s.queue.heap)

abbrev both : Scheduler → Scheduler → (List Text × List Text) × (List Text × List Text)
both s s' = (names s, names s')

-- A task that stalled waits in the queue when it is cancelled. It stays watched, so that its next stall puts
-- the cancelled task in the queue again.
story_run :
    (run world story fresh >>= λ s. on_task_stalled 150 (codes "low") s >>= λ s'. some (both s s'))
    ≡ some ((codes "low" ∷ [], []), (codes "low" ∷ [], codes "low" ∷ []))
unfolding run on_task_stalled same
story_run = refl

run-IsSound_example :
    (s' : Scheduler) × (run world story fresh ≡ some s') × IsSound s' × Counts (0 + length story) s'
run-IsSound_example = run-IsSound world story 0 fresh fresh-IsSound fresh-Counts (omega arith)

-- The tasks of the queue run.
abbrev active : Scheduler
active = elim (process_queue world reliable) [ none ↦ reliable | some s ↦ s ]

active-IsSound : IsSound active
active-IsSound =
    let (out, s', e, p) = process_queue_correct world reliable loaded-IsSound in
    rw (active, e) p.sound

active-Counts : Counts 3 active
active-Counts =
    let (out, s', e, p) = process_queue_correct world reliable loaded-IsSound in
    rw (active, e) (3, p.counter, omega arith)

-- All of them are silent for too long.
active_run :
    (map (λ x. x.0) (check_tasks active.monitor 70000000000).0 ≡ codes "high" ∷ codes "low" ∷ [])
    × (length (check_tasks active.monitor 70000000000).0 ≡ 2)
unfolding process_queue check_tasks same first_child less_at
active_run = (refl, refl)

on_task_stalled_correct_example :
    (s' : Scheduler) × (on_task_stalled 9 (codes "low") active ≡ some s')
    × IsSound s'
    × Counts 4 s'
    × (s'.monitor ≡ active.monitor)
    × Stall (codes "low") active s'
on_task_stalled_correct_example =
    on_task_stalled_correct 9 3 (codes "low") active active-IsSound active-Counts (omega arith)

cancel_correct_example :
    (s' : Scheduler) × (cancel 9 (codes "low") loaded ≡ some s')
    × Ended (codes "low") status_cancelled loaded s'
    × (s'.stats.stats.total_cancelled ≡ suc loaded.stats.stats.total_cancelled)
    × Cancelled (codes "low") loaded s'
cancel_correct_example = cancel_correct 9 (codes "low") loaded loaded-IsSound

report_result_correct_example :
    Ended failure.task_id (result_status failure.success) active (report_result 9 failure active)
    × (lookup failure.task_id (report_result 9 failure active).monitor.watched ≡ none)
    × Tallied failure.success active.stats.stats (report_result 9 failure active).stats.stats
report_result_correct_example = report_result_correct 9 failure active active-IsSound

poll_correct_example :
    (s' : Scheduler) × (poll 70000000000 active ≡ some s')
    × IsSound s'
    × (s'.monitor ≡ (check_tasks active.monitor 70000000000).1)
unfolding check_tasks
poll_correct_example =
    poll_correct 70000000000 3 active active-IsSound active-Counts (omega (arith, active_run.1))
