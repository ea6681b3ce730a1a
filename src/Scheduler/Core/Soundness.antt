-- ===== src/Scheduler/Core/Soundness.antt =====
-- internal/hivemind/service/scheduler/scheduler.go: what holds of the scheduler between two calls.
use echoryn.Prelude.{
  Text, same, same_iff, Assoc, lookup, insert, delete, lookup-insert, lookup-delete, ℤ, pos,
  int_ltb, ℕ, ◌≤◌, ◌≡◌, refl, sym, ◌∙◌, ◌⊎◌, ◌↔◌, inl, inr, Bool, true, false, Option, none, some,
  Bool-cases, arith, if◌then◌else◌,
}
use echoryn.Scheduler.Queue.{PriorityQueue}
use echoryn.Scheduler.Queue.Insert.{IsValid, new_priority_queue-IsValid}
use echoryn.Scheduler.Monitor.{WatchedTask}
use echoryn.Scheduler.Stats.{StatsCollector, record_assignment}
use echoryn.Scheduler.Stats.Accounts.{IsBounded, assigned, apply, apply_step}
use echoryn.Scheduler.Core.{
  TaskRecord, Scheduler, CompletedSchedulerConfig, TaskStore, new_scheduler,
}

-- The record of the task `k` is about that task, and its retries are within the limit.
pub record IsAbout (max : ℤ) (k : Text) (rec : TaskRecord) : Type 0 where
  pub named : rec.task.id ≡ k
  pub asked : rec.request.task ≡ rec.task
  pub decided : rec.decision.request_id ≡ k
  pub retried : (rec.retries ≡ 0) ⊎ (int_ltb max (pos rec.retries) ≡ false)

-- The parts of a scheduler agree: the queue is valid, a watched task has a record, and a task that
-- runs is watched.
pub record Agree (max : ℤ) (q : PriorityQueue) (tasks : Assoc TaskRecord)
    (watched : Assoc WatchedTask) (c : StatsCollector) : Type 0 where
  pub queue : IsValid q
  pub records : (k : Text) (rec : TaskRecord) → lookup k tasks ≡ some rec → IsAbout max k rec
  pub known : (k : Text) → lookup k tasks ≡ none → lookup k watched ≡ none
  pub seen : (k : Text) → lookup k watched ≡ none → lookup k c.running ≡ none
  pub bounded : IsBounded c

abbrev pub IsSound : Scheduler → Type 0
IsSound s = Agree s.config.max_retries s.queue s.tasks s.monitor.watched s.stats

-- The number of requests that were put in the queue so far is at most `n`.
abbrev pub Counts : ℕ → Scheduler → Type 0
Counts n s = (m : ℕ) × (s.queue.seq ≡ pos m) × (m ≤ n)

if_none :
    (A : Type 0) (b : Bool) (v : A) (o : Option A)
    → (if b then some v else o) ≡ none
    → (b ≡ false) × (o ≡ none)
if_none A true v o h = cc
if_none A false v o h = (refl, h)

-- The collector stops counting the task `id` as running.
pub Agree-stop :
    {max : ℤ} {q : PriorityQueue} {tasks : Assoc TaskRecord} {watched : Assoc WatchedTask}
    {c : StatsCollector} (id : Text) (c' : StatsCollector)
    → IsBounded c'
    → ((k : Text) → lookup k c'.running ≡ (if same id k then none else lookup k c.running))
    → Agree max q tasks watched c
    → Agree max q tasks watched c' × Agree max q tasks (delete id watched) c'
Agree-stop {tasks} {watched} {c} id c' bounded running h = (
  record { queue = h.queue; records = h.records; known = h.known; seen = quiet; bounded = bounded },
  record { queue = h.queue; records = h.records; known = gone; seen = stopped; bounded = bounded },
)
  where
    none_if : {A : Type 0} (b : Bool) (o : Option A) → o ≡ none → (if b then none else o) ≡ none
    none_if true o e = refl
    none_if false o e = e

    quiet : (k : Text) → lookup k watched ≡ none → lookup k c'.running ≡ none
    quiet k e = running k ∙ none_if (same id k) (lookup k c.running) (h.seen k e)

    gone : (k : Text) → lookup k tasks ≡ none → lookup k (delete id watched) ≡ none
    gone k e = lookup-delete id k watched ∙ none_if (same id k) (lookup k watched) (h.known k e)

    stopped : (k : Text) → lookup k (delete id watched) ≡ none → lookup k c'.running ≡ none
    stopped k e = elim (Bool-cases (same id k)) [
      | inl here ↦ running k ∙ rw here refl
      | inr other ↦ quiet k (sym (lookup-delete id k watched ∙ rw other refl) ∙ e)
    ]

pub Agree-record :
    {max : ℤ} {q : PriorityQueue} {tasks : Assoc TaskRecord} {watched : Assoc WatchedTask}
    {c : StatsCollector} (id : Text) (rec : TaskRecord)
    → IsAbout max id rec
    → Agree max q tasks watched c
    → Agree max q (insert id rec tasks) watched c
Agree-record {max} {tasks} id rec about h = record {
  queue = h.queue;
  records = λ k r e. elim (Bool-cases (same id k)) [
    | inl here ↦
        let it : some rec ≡ some r = sym (lookup-insert id k rec tasks ∙ rw here refl) ∙ e in
        let same_record : rec ≡ r = cc in rw (← same_record, ← (same_iff id k).0 here) about
    | inr other ↦ h.records k r (sym (lookup-insert id k rec tasks ∙ rw other refl) ∙ e)
  ];
  known = λ k e.
      h.known k (if_none TaskRecord (same id k) rec _ (sym (lookup-insert id k rec tasks) ∙ e)).1;
  seen = h.seen;
  bounded = h.bounded;
}

pub Agree-start :
    {max : ℤ} {q : PriorityQueue} {tasks : Assoc TaskRecord} {watched : Assoc WatchedTask}
    {c : StatsCollector} (id node : Text) (latency now : ℕ) (wt : WatchedTask) (rec : TaskRecord)
    → lookup id tasks ≡ some rec
    → Agree max q tasks watched c
    → Agree max q tasks (insert id wt watched) (record_assignment id node latency now c)
unfolding record_assignment apply
Agree-start {tasks} {watched} {c} id node latency now wt rec there h =
    let (bounded, running, _) = apply_step (assigned id node latency now) c h.bounded in
    record {
      queue = h.queue;
      records = h.records;
      known = λ k e. elim (Bool-cases (same id k)) [
        | inl here ↦
            let it : lookup k tasks ≡ some rec = rw (← (same_iff id k).0 here) there in absurd cc
        | inr other ↦ lookup-insert id k wt watched ∙ rw other (h.known k e)
      ];
      seen = λ k e.
          let (other, gone) =
            if_none WatchedTask (same id k) wt _ (sym (lookup-insert id k wt watched) ∙ e) in
          running k ∙ rw other (h.seen k gone);
      bounded = bounded;
    }

-- A sound scheduler with another valid queue.
pub with_queue :
    (s : Scheduler) (q : PriorityQueue) → IsValid q → IsSound s → IsSound (record s { queue = q })
with_queue s q v h = record {
  queue = v;
  records = h.records;
  known = h.known;
  seen = h.seen;
  bounded = h.bounded;
}

-- A change of the watch table that keeps its keys.
pub Agree-beat :
    {max : ℤ} {q : PriorityQueue} {tasks : Assoc TaskRecord} {watched : Assoc WatchedTask}
    {c : StatsCollector} (watched' : Assoc WatchedTask)
    → ((k : Text) → (lookup k watched ≡ none) ↔ (lookup k watched' ≡ none))
    → Agree max q tasks watched c
    → Agree max q tasks watched' c
Agree-beat watched' keys h = record {
  queue = h.queue;
  records = h.records;
  known = λ k e. (keys k).0 (h.known k e);
  seen = λ k e. h.seen k ((keys k).1 e);
  bounded = h.bounded;
}

-- A new scheduler is sound.
pub new_scheduler-IsSound :
    (sealed : CompletedSchedulerConfig) (objects : TaskStore)
    → IsSound (new_scheduler sealed objects)
unfolding lookup
new_scheduler-IsSound sealed objects = record {
  queue = new_priority_queue-IsValid;
  records = λ k rec e. absurd cc;
  known = λ k e. refl;
  seen = λ k e. refl;
  bounded = record { latencies = omega arith; executions = omega arith };
}
