-- ===== src/Scheduler/Core/Endings.antt =====
-- internal/hivemind/service/scheduler/scheduler.go: how a task ends, by Cancel or by a reported result.
use mathlib.Core.List.{Mem}
use echoryn.Prelude.{
  if◌then◌else◌, Text, same, lookup, lookup-delete, ℕ, suc, ◌+◌, ◌≡◌, refl, ◌∙◌, inl, inr, Bool,
  true, false, none, some, arith, Bool-cases, Option-cases, ◌==◌, same_self, is_empty, delete,
}
use echoryn.Scheduler.Types.{TaskStatus, status_cancelled}
use echoryn.Scheduler.Queue.{HeapItem}
use echoryn.Scheduler.Queue.Remove.{remove_correct, TakesOut}
use echoryn.Scheduler.Monitor.{unwatch}
use echoryn.Scheduler.Stats.{
  StatsCollector, record_failure, record_cancellation, record_completion, SchedulerStats,
  update_node,
}
use echoryn.Scheduler.Stats.Accounts.{completed, failed, cancelled, apply, apply_step, IsBounded}
use echoryn.Scheduler.Core.{Scheduler, TaskRecord, TaskResult, emit_event, write}
use echoryn.Scheduler.Core.Calls.{
  cancel, note_cancelled, set_status, report_result, note_result, result_status, count_result,
}
use echoryn.Scheduler.Core.Soundness.{Agree-stop, IsSound, with_queue}

-- The task `id` no longer counts as running, and its object has the status, where it has a record.
pub record Ended (id : Text) (status : TaskStatus) (s s' : Scheduler) : Type 0 where
  pub sound : IsSound s'
  pub tasks : s'.tasks ≡ s.tasks
  pub running : lookup id s'.stats.running ≡ none
  pub known :
      (rec : TaskRecord)
      → lookup id s.tasks ≡ some rec
      → (s'.objects rec.task.address).status ≡ status
  pub unknown : lookup id s.tasks ≡ none → s'.objects ≡ s.objects

-- A queued request of the task is taken out, and the task stays watched if it was; or there is
-- none, and the task is no longer watched.
pub data Cancelled (id : Text) (s : Scheduler) : Scheduler → Type 0 where
  taken_out :
      {s' : Scheduler} (x : HeapItem)
      → same x.request.task.id id ≡ true
      → TakesOut s.queue x s'.queue
      → s'.monitor ≡ s.monitor
      → Cancelled id s s'
  not_queued :
      {s' : Scheduler}
      → ((y : HeapItem) → Mem y s.queue.heap → same y.request.task.id id ≡ false)
      → s'.queue ≡ s.queue
      → lookup id s'.monitor.watched ≡ none
      → Cancelled id s s'

same_address : (a : ℕ) → (a == a) ≡ true
same_address a = ground arith

-- The object of a task after a write through its record.
status_written :
    (id : Text) (status : TaskStatus) (s : Scheduler) (rec : TaskRecord)
    → lookup id s.tasks ≡ some rec
    → ((set_status status id s).objects rec.task.address).status ≡ status
unfolding set_status write
status_written id status s rec there = rw (set_status, there, same_address rec.task.address) refl

status_unknown :
    (id : Text) (status : TaskStatus) (s : Scheduler)
    → lookup id s.tasks ≡ none
    → (set_status status id s).objects ≡ s.objects
unfolding set_status
status_unknown id status s missing = rw (set_status, missing) refl

note_cancelled-Ended :
    (now : ℕ) (id : Text) (s : Scheduler)
    → IsSound s
    → Ended id status_cancelled s (note_cancelled now id s)
      × IsSound (record (note_cancelled now id s) { monitor = unwatch s.monitor id })
unfolding note_cancelled emit_event set_status unwatch record_cancellation apply
note_cancelled-Ended now id s h =
    let (bounded, running, _) = apply_step (cancelled id) s.stats h.bounded in
    let (quiet, gone) = Agree-stop id (record_cancellation id s.stats) bounded running h in
    (
      record {
        sound = quiet;
        tasks = refl;
        running = running id ∙ rw (same_self id) refl;
        known = λ rec there. status_written id status_cancelled s rec there;
        unknown = λ missing. status_unknown id status_cancelled s missing;
      },
      gone,
    )

-- Cancel of a sound scheduler always returns, counts one cancellation, and leaves the task not running and
-- marked as cancelled where it has a record. It takes one queued request of the task out and leaves the
-- table of watched tasks alone, or, where none is queued, leaves the queue alone and stops watching.
pub cancel_correct :
    (now : ℕ) (id : Text) (s : Scheduler)
    → IsSound s
    → (s' : Scheduler) × (cancel now id s ≡ some s')
      × Ended id status_cancelled s s'
      × (s'.stats.stats.total_cancelled ≡ suc s.stats.stats.total_cancelled)
      × Cancelled id s s'
unfolding cancel note_cancelled emit_event set_status unwatch record_cancellation
cancel_correct now id s h =
    let (noted, unwatched) = note_cancelled-Ended now id s h in
    let one_more : s.stats.stats.total_cancelled + 1 ≡ suc s.stats.stats.total_cancelled =
      omega arith in
    elim (remove_correct s.queue id h.queue) [
      | inl (x, q, e, named, t) ↦ rw e (
        _,
        refl,
        record {
          sound = with_queue (note_cancelled now id s) q t.valid noted.sound;
          tasks = refl;
          running = noted.running;
          known = noted.known;
          unknown = noted.unknown;
        },
        one_more,
        taken_out x named t refl,
      )
      | inr (e, others) ↦ rw e (
        _,
        refl,
        record {
          sound = unwatched;
          tasks = refl;
          running = noted.running;
          known = noted.known;
          unknown = noted.unknown;
        },
        one_more,
        not_queued others refl (lookup-delete id id s.monitor.watched ∙ rw (same_self id) refl),
      )
    ]

-- Which counter a result adds to.
abbrev pub Tallied : Bool → SchedulerStats → SchedulerStats → Type 0
Tallied true s s' =
    (s'.total_completed ≡ suc s.total_completed) × (s'.total_failed ≡ s.total_failed)
Tallied false s s' =
    (s'.total_completed ≡ s.total_completed) × (s'.total_failed ≡ suc s.total_failed)

-- A record of completion stops the task, and counts it once.
record_completion_lem :
    (id node : Text) (now : ℕ) (c : StatsCollector)
    → (lookup id (record_completion id node now c).running ≡ none)
      × Tallied true c.stats (record_completion id node now c).stats
unfolding record_completion update_node
record_completion_lem id node now c = elim (Option-cases (lookup id c.running)) [
  | inl idle ↦ rw (record_completion, idle) (idle, (omega arith, refl))
  | inr (at, busy) ↦ elim (Bool-cases (is_empty node)) [
    | inl nameless ↦
        rw (record_completion, busy, nameless)
          (lookup-delete id id c.running ∙ rw (same_self id) refl, (omega arith, refl))
    | inr named ↦
        rw (record_completion, busy, named)
          (lookup-delete id id c.running ∙ rw (same_self id) refl, (omega arith, refl))
  ]
]

record_failure_lem :
    (id node : Text) (c : StatsCollector)
    → (lookup id (record_failure id node c).running ≡ none)
      × Tallied false c.stats (record_failure id node c).stats
unfolding record_failure update_node
record_failure_lem id node c =
    let stopped : lookup id (delete id c.running) ≡ none =
      lookup-delete id id c.running ∙ rw (same_self id) refl in
    elim (Bool-cases (is_empty node)) [
      | inl nameless ↦ rw (record_failure, nameless) (stopped, (refl, omega arith))
      | inr named ↦ rw (record_failure, named) (stopped, (refl, omega arith))
    ]

-- The count of a result stops the task, whether it succeeded or not.
count_result_lem :
    (b : Bool) (id node : Text) (now : ℕ) (c : StatsCollector)
    → IsBounded c
    → IsBounded (count_result b id node now c)
      × ((k : Text)
          → lookup k (count_result b id node now c).running
            ≡ (if same id k then none else lookup k c.running))
      × (lookup id (count_result b id node now c).running ≡ none)
      × Tallied b c.stats (count_result b id node now c).stats
unfolding count_result apply
count_result_lem true id node now c h =
    let (bounded, running, _) = apply_step (completed id node now) c h in
    let (stopped, counted) = record_completion_lem id node now c in
    (bounded, running, stopped, counted)
count_result_lem false id node now c h =
    let (bounded, running, _) = apply_step (failed id node) c h in
    let (stopped, counted) = record_failure_lem id node c in (bounded, running, stopped, counted)

result_written :
    (now : ℕ) (r : TaskResult) (s : Scheduler) (rec : TaskRecord)
    → lookup r.task_id s.tasks ≡ some rec
    → ((note_result now r s).0.objects rec.task.address).status ≡ result_status r.success
unfolding note_result write
result_written now r s rec there = rw (note_result, there, same_address rec.task.address) refl

result_unknown :
    (now : ℕ) (r : TaskResult) (s : Scheduler)
    → lookup r.task_id s.tasks ≡ none
    → (note_result now r s).0.objects ≡ s.objects
unfolding note_result
result_unknown now r s missing = rw (note_result, missing) refl

-- A result, of a known task or not, leaves a sound scheduler sound. The task is not watched and does not run
-- after it, its object has the final status where it has a record, and exactly one of the
-- counters of completed and of failed tasks grows, by one.
pub report_result_correct :
    (now : ℕ) (r : TaskResult) (s : Scheduler)
    → IsSound s
    → Ended r.task_id (result_status r.success) s (report_result now r s)
      × (lookup r.task_id (report_result now r s).monitor.watched ≡ none)
      × Tallied r.success s.stats.stats (report_result now r s).stats.stats
unfolding report_result note_result emit_event unwatch write apply
report_result_correct now r s h =
    let id = r.task_id in
    let node = (note_result now r s).1 in
    let gone : lookup id (delete id s.monitor.watched) ≡ none =
      lookup-delete id id s.monitor.watched ∙ rw (same_self id) refl in
    let (bounded, running, stopped, counted) =
      count_result_lem r.success id node now s.stats h.bounded in
    let (_, sound) = Agree-stop id (count_result r.success id node now s.stats) bounded running h in
    (
      record {
        sound = sound;
        tasks = refl;
        running = stopped;
        known = result_written now r s;
        unknown = result_unknown now r s;
      },
      gone,
      counted,
    )
