-- ===== src/Scheduler/Stats.antt =====
-- internal/hivemind/service/scheduler/monitor.go: the statistics of the scheduler. Times and durations are
-- natural nanoseconds, and the time is an argument; the counters stay far below the width of int64.
pub mod Accounts
use echoryn.Prelude.{
  Text, is_empty, Assoc, lookup, insert, delete, ℕ, zero, suc, ◌+◌, ◌-◌, ◌/◌, List, [], ◌∷◌, ◌++◌,
  Option, none, some, length, drop, ◌==◌, ltb, if◌then◌else◌,
}

pub record NodeSchedulerStats : Type 0 where
  pub node_id : Text
  pub tasks_assigned : ℕ
  pub tasks_completed : ℕ
  pub tasks_failed : ℕ
  pub average_execution_time : ℕ
  pub last_assigned_at : Option ℕ

-- SchedulerStats; the fields that only a snapshot sets are 0 in the collector.
pub record SchedulerStats : Type 0 where
  pub total_submitted : ℕ
  pub total_completed : ℕ
  pub total_failed : ℕ
  pub total_cancelled : ℕ
  pub total_timed_out : ℕ
  pub current_queued : ℕ
  pub current_running : ℕ
  pub average_latency : ℕ
  pub average_execution_time : ℕ
  pub node_stats : Assoc NodeSchedulerStats
  pub collected_at : Option ℕ

pub record StatsCollector : Type 0 where
  pub stats : SchedulerStats
  pub running : Assoc ℕ
  pub latency_samples : List ℕ
  pub execution_samples : List ℕ
  pub max_sample_count : ℕ

abbrev pub new_stats_collector : StatsCollector
new_stats_collector = record {
  stats = record {
    total_submitted = 0;
    total_completed = 0;
    total_failed = 0;
    total_cancelled = 0;
    total_timed_out = 0;
    current_queued = 0;
    current_running = 0;
    average_latency = 0;
    average_execution_time = 0;
    node_stats = [];
    collected_at = none;
  };
  running = [];
  latency_samples = [];
  execution_samples = [];
  max_sample_count = 1000;
}

-- The append to a list of samples and the cut of its first one.
unfoldable pub add_sample : ℕ → List ℕ → ℕ → List ℕ
add_sample max samples x =
    let longer = samples ++ (x ∷ []) in if ltb max (length longer) then drop 1 longer else longer

-- getOrCreateNodeStats with the change that its caller makes to the entry.
unfoldable pub update_node :
    (NodeSchedulerStats → NodeSchedulerStats) → Text → SchedulerStats → SchedulerStats
unfolding lookup insert
update_node f node_id s =
    let entry : NodeSchedulerStats = elim (lookup node_id s.node_stats) [
      | some ns ↦ ns
      | none ↦ record {
        node_id = node_id;
        tasks_assigned = 0;
        tasks_completed = 0;
        tasks_failed = 0;
        average_execution_time = 0;
        last_assigned_at = none;
      }
    ] in
    record s { node_stats = insert node_id (f entry) s.node_stats }

unfoldable pub record_submission : StatsCollector → StatsCollector
record_submission c = record c {
  stats = record (c.stats) { total_submitted = c.stats.total_submitted + 1 };
}

unfoldable pub record_assignment : Text → Text → ℕ → ℕ → StatsCollector → StatsCollector
unfolding add_sample update_node insert
record_assignment task_id node_id latency now c = record c {
  running = insert task_id now c.running;
  latency_samples = add_sample c.max_sample_count c.latency_samples latency;
  stats =
      update_node
        (λ ns. record ns { tasks_assigned = ns.tasks_assigned + 1; last_assigned_at = some now })
        node_id c.stats;
}

unfoldable pub record_completion : Text → Text → ℕ → StatsCollector → StatsCollector
unfolding add_sample update_node lookup delete
record_completion task_id node_id now c =
    let counted = record (c.stats) { total_completed = c.stats.total_completed + 1 } in
    let noted =
      update_node (λ ns. record ns { tasks_completed = ns.tasks_completed + 1 }) node_id counted in
    elim (lookup task_id c.running) [
      | none ↦ record c { stats = counted }
      | some assigned_at ↦ record c {
        execution_samples = add_sample c.max_sample_count c.execution_samples (now - assigned_at);
        running = delete task_id c.running;
        stats = if is_empty node_id then counted else noted;
      }
    ]

unfoldable pub record_failure : Text → Text → StatsCollector → StatsCollector
unfolding update_node delete
record_failure task_id node_id c =
    let counted = record (c.stats) { total_failed = c.stats.total_failed + 1 } in
    let noted =
      update_node (λ ns. record ns { tasks_failed = ns.tasks_failed + 1 }) node_id counted in
    record c {
      running = delete task_id c.running;
      stats = if is_empty node_id then counted else noted;
    }

unfoldable pub record_cancellation : Text → StatsCollector → StatsCollector
unfolding delete
record_cancellation task_id c = record c {
  running = delete task_id c.running;
  stats = record (c.stats) { total_cancelled = c.stats.total_cancelled + 1 };
}

unfoldable pub record_timeout : Text → StatsCollector → StatsCollector
unfolding delete
record_timeout task_id c = record c {
  running = delete task_id c.running;
  stats = record (c.stats) { total_timed_out = c.stats.total_timed_out + 1 };
}

abbrev pub sum : List ℕ → ℕ
sum [] = 0
sum (x ∷ xs) = x + sum xs

unfoldable pub average_duration : List ℕ → ℕ
average_duration samples = if length samples == 0 then 0 else sum samples / length samples

unfoldable pub snapshot : ℕ → ℕ → StatsCollector → SchedulerStats
unfolding average_duration
snapshot queue_len now c = record (c.stats) {
  current_queued = queue_len;
  current_running = length c.running;
  average_latency = average_duration c.latency_samples;
  average_execution_time = average_duration c.execution_samples;
  collected_at = some now;
}
