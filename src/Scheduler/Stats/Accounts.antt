-- ===== src/Scheduler/Stats/Accounts.antt =====
-- internal/hivemind/service/scheduler/monitor.go: what the statistics say after any sequence of records.
use echoryn.Prelude.{
  Text, same, same_iff, is_empty, ap, Assoc, lookup, lookup-insert, lookup-delete, ℕ, ◌+◌, ◌-◌, ◌≤◌,
  ◌≡◌, refl, ◌∙◌, List, [], ◌∷◌, ◌++◌, Option, none, some, length, Option-cases, Bool-cases, inl,
  inr, arith, if◌then◌else◌, length-append, length-drop,
}
use echoryn.Scheduler.Stats.{
  StatsCollector, add_sample, update_node, record_submission, record_assignment, record_completion,
  record_failure, record_cancellation, record_timeout,
}

-- The calls that change the collector.
pub data Op : Type 0 where
  submitted : Op
  assigned : Text → Text → ℕ → ℕ → Op
  completed : Text → Text → ℕ → Op
  failed : Text → Text → Op
  cancelled timed_out : Text → Op

unfoldable pub apply : Op → StatsCollector → StatsCollector
unfolding record_submission record_assignment record_completion record_failure record_cancellation
    record_timeout
apply submitted c = record_submission c
apply (assigned task node latency now) c = record_assignment task node latency now c
apply (completed task node now) c = record_completion task node now c
apply (failed task node) c = record_failure task node c
apply (cancelled task) c = record_cancellation task c
apply (timed_out task) c = record_timeout task c

-- The calls one after the other.
unfoldable pub apply_all : List Op → StatsCollector → StatsCollector
unfolding apply
apply_all [] c = c
apply_all (op ∷ ops) c = apply_all ops (apply op c)

-- The time of assignment of the task `k`, if it runs: an assignment starts it, and whatever ends it
-- stops it.
abbrev pub starts : Text → Op → Option ℕ → Option ℕ
starts k submitted o = o
starts k (assigned task node latency now) o = if same task k then some now else o
starts k (completed task node now) o = if same task k then none else o
starts k (failed task node) o = if same task k then none else o
starts k (cancelled task) o = if same task k then none else o
starts k (timed_out task) o = if same task k then none else o

abbrev pub runs : Text → List Op → Option ℕ → Option ℕ
runs k [] o = o
runs k (op ∷ ops) o = runs k ops (starts k op o)

-- The sum of a number over the calls.
abbrev pub number : (Op → ℕ) → List Op → ℕ
number f [] = 0
number f (op ∷ ops) = f op + number f ops

abbrev pub submission : Op → ℕ
submission submitted = 1
submission _ = 0

abbrev pub completion : Op → ℕ
completion (completed _ _ _) = 1
completion _ = 0

abbrev pub failure : Op → ℕ
failure (failed _ _) = 1
failure _ = 0

abbrev pub cancellation : Op → ℕ
cancellation (cancelled _) = 1
cancellation _ = 0

abbrev pub time_out : Op → ℕ
time_out (timed_out _) = 1
time_out _ = 0

-- Each counter has grown by the number of its calls.
pub record IsCounted (c : StatsCollector) (ops : List Op) (c' : StatsCollector) : Type 0 where
  pub submissions : c'.stats.total_submitted ≡ c.stats.total_submitted + number submission ops
  pub completions : c'.stats.total_completed ≡ c.stats.total_completed + number completion ops
  pub failures : c'.stats.total_failed ≡ c.stats.total_failed + number failure ops
  pub cancellations : c'.stats.total_cancelled ≡ c.stats.total_cancelled + number cancellation ops
  pub time_outs : c'.stats.total_timed_out ≡ c.stats.total_timed_out + number time_out ops

IsCounted-cons :
    (op : Op) (ops : List Op) (c c1 c2 : StatsCollector)
    → IsCounted c (op ∷ []) c1
    → IsCounted c1 ops c2
    → IsCounted c (op ∷ ops) c2
IsCounted-cons op ops c c1 c2 h k = record {
  submissions = omega (arith, h.submissions, k.submissions);
  completions = omega (arith, h.completions, k.completions);
  failures = omega (arith, h.failures, k.failures);
  cancellations = omega (arith, h.cancellations, k.cancellations);
  time_outs = omega (arith, h.time_outs, k.time_outs);
}

-- The samples stay within their limit.
pub record IsBounded (c : StatsCollector) : Type 0 where
  pub latencies : length c.latency_samples ≤ c.max_sample_count
  pub executions : length c.execution_samples ≤ c.max_sample_count

add_sample_le :
    (max x : ℕ) (samples : List ℕ) → length samples ≤ max → length (add_sample max samples x) ≤ max
unfolding add_sample
add_sample_le max x samples h =
    ground (arith, length-append samples (x ∷ []), length-drop 1 (samples ++ (x ∷ [])))

-- What one call does to the collector.
abbrev pub Step : StatsCollector → Op → StatsCollector → Type 0
Step c op c' =
    IsBounded c'
    × ((k : Text) → lookup k c'.running ≡ starts k op (lookup k c.running))
    × IsCounted c (op ∷ []) c'

idle_lem :
    (task k : Text) (m : Assoc ℕ)
    → lookup task m ≡ none
    → lookup k m ≡ (if same task k then none else lookup k m)
idle_lem task k m idle = elim (Bool-cases (same task k)) [
  | inl e ↦ rw e (rw ((same_iff task k).0 e) at idle)
  | inr e ↦ rw e refl
]

completion_step :
    (task node : Text) (now : ℕ) (c : StatsCollector)
    → IsBounded c
    → Step c (completed task node now) (record_completion task node now c)
unfolding record_completion update_node
completion_step task node now c h = elim (Option-cases (lookup task c.running)) [
  | inl idle ↦
      rw (record_completion, idle)
        (
          record { latencies = h.latencies; executions = h.executions },
          λ k. idle_lem task k c.running idle,
          record {
            submissions = omega arith;
            completions = omega arith;
            failures = omega arith;
            cancellations = omega arith;
            time_outs = omega arith;
          },
        )
  | inr (t, busy) ↦
      let more = add_sample_le c.max_sample_count (now - t) c.execution_samples h.executions in
      elim (Bool-cases (is_empty node)) [
        | inl nameless ↦
            rw (record_completion, busy, nameless)
              (
                record { latencies = h.latencies; executions = more },
                λ k. lookup-delete task k c.running,
                record {
                  submissions = omega arith;
                  completions = omega arith;
                  failures = omega arith;
                  cancellations = omega arith;
                  time_outs = omega arith;
                },
              )
        | inr named ↦
            rw (record_completion, busy, named)
              (
                record { latencies = h.latencies; executions = more },
                λ k. lookup-delete task k c.running,
                record {
                  submissions = omega arith;
                  completions = omega arith;
                  failures = omega arith;
                  cancellations = omega arith;
                  time_outs = omega arith;
                },
              )
      ]
]

failure_step :
    (task node : Text) (c : StatsCollector)
    → IsBounded c
    → Step c (failed task node) (record_failure task node c)
unfolding record_failure update_node
failure_step task node c h = elim (Bool-cases (is_empty node)) [
  | inl nameless ↦
      rw (record_failure, nameless)
        (
          record { latencies = h.latencies; executions = h.executions },
          λ k. lookup-delete task k c.running,
          record {
            submissions = omega arith;
            completions = omega arith;
            failures = omega arith;
            cancellations = omega arith;
            time_outs = omega arith;
          },
        )
  | inr named ↦
      rw (record_failure, named)
        (
          record { latencies = h.latencies; executions = h.executions },
          λ k. lookup-delete task k c.running,
          record {
            submissions = omega arith;
            completions = omega arith;
            failures = omega arith;
            cancellations = omega arith;
            time_outs = omega arith;
          },
        )
]

pub apply_step : (op : Op) (c : StatsCollector) → IsBounded c → Step c op (apply op c)
unfolding apply update_node
apply_step submitted c h = (
  record { latencies = h.latencies; executions = h.executions },
  λ k. refl,
  record {
    submissions = omega arith;
    completions = omega arith;
    failures = omega arith;
    cancellations = omega arith;
    time_outs = omega arith;
  },
)
apply_step (assigned task node latency now) c h = (
  record {
    latencies = add_sample_le c.max_sample_count latency c.latency_samples h.latencies;
    executions = h.executions;
  },
  λ k. lookup-insert task k now c.running,
  record {
    submissions = omega arith;
    completions = omega arith;
    failures = omega arith;
    cancellations = omega arith;
    time_outs = omega arith;
  },
)
apply_step (completed task node now) c h = completion_step task node now c h
apply_step (failed task node) c h = failure_step task node c h
apply_step (cancelled task) c h = (
  record { latencies = h.latencies; executions = h.executions },
  λ k. lookup-delete task k c.running,
  record {
    submissions = omega arith;
    completions = omega arith;
    failures = omega arith;
    cancellations = omega arith;
    time_outs = omega arith;
  },
)
apply_step (timed_out task) c h = (
  record { latencies = h.latencies; executions = h.executions },
  λ k. lookup-delete task k c.running,
  record {
    submissions = omega arith;
    completions = omega arith;
    failures = omega arith;
    cancellations = omega arith;
    time_outs = omega arith;
  },
)

-- What the collector says after the calls, from the collector before them.
pub record Accounts (c : StatsCollector) (ops : List Op) (c' : StatsCollector) : Type 0 where
  pub bounded : IsBounded c'
  pub running : (k : Text) → lookup k c'.running ≡ runs k ops (lookup k c.running)
  pub counted : IsCounted c ops c'

-- After any sequence of calls on a collector whose lists of samples are within their limit, a task runs
-- exactly if it ran or was assigned and nothing has ended it since, with the time of its last assignment;
-- the counters of submissions, completions, failures, cancellations and time-outs have each grown by the number
-- of calls of their kind; and no list of samples is longer than its limit.
pub apply_all-Accounts :
    (ops : List Op) (c : StatsCollector) → IsBounded c → Accounts c ops (apply_all ops c)
unfolding apply_all
apply_all-Accounts [] c h = record {
  bounded = h;
  running = λ k. refl;
  counted = record {
    submissions = omega arith;
    completions = omega arith;
    failures = omega arith;
    cancellations = omega arith;
    time_outs = omega arith;
  };
}
apply_all-Accounts (op ∷ ops) c h =
    let (bounded, running, counted) = apply_step op c h in
    let rest = apply_all-Accounts ops (apply op c) bounded in
    record {
      bounded = rest.bounded;
      running = λ k. rest.running k ∙ ap (runs k ops) (running k);
      counted =
          IsCounted-cons op ops c (apply op c) (apply_all ops (apply op c)) counted rest.counted;
    }
