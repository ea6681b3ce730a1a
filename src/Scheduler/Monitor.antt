-- ===== src/Scheduler/Monitor.antt =====
-- internal/hivemind/service/scheduler/monitor.go: the watch table of the task monitor. Times are nanoseconds
-- of the monotonic clock and arguments; durations are not negative. The table is a Go map, whose order is
-- open: here it is the order of the association list. The calls of the handler are returned in order. The
-- poll loop, which calls check_tasks at each tick, is left out.
pub mod Checks
use echoryn.Prelude.{
  Text, Assoc, lookup, insert, delete, ℕ, ◌-◌, List, [], ◌∷◌, map, Option, none, some, ◌==◌, ltb,
  if◌then◌else◌,
}

pub record MonitorConfig : Type 0 where
  pub poll_interval : ℕ
  pub stall_threshold : ℕ
  pub default_timeout : ℕ

abbrev pub default_monitor_config : MonitorConfig
default_monitor_config = record {
  poll_interval = 10000000000;
  stall_threshold = 60000000000;
  default_timeout = 300000000000;
}

pub record WatchedTask : Type 0 where
  pub started_at : ℕ
  pub last_heartbeat : ℕ
  pub timeout : ℕ

pub record TaskMonitor : Type 0 where
  pub config : MonitorConfig
  pub watched : Assoc WatchedTask

abbrev pub new_monitor : MonitorConfig → TaskMonitor
new_monitor config = record { config = config; watched = [] }

-- The id and the timeout of the task.
unfoldable pub watch : TaskMonitor → Text → ℕ → ℕ → TaskMonitor
unfolding insert
watch m id timeout now =
    let limit = if timeout == 0 then m.config.default_timeout else timeout in
    record m {
      watched =
          insert id (record { started_at = now; last_heartbeat = now; timeout = limit }) m.watched;
    }

unfoldable pub unwatch : TaskMonitor → Text → TaskMonitor
unfolding delete
unwatch m id = record m { watched = delete id m.watched }

unfoldable pub record_heartbeat : TaskMonitor → Text → ℕ → TaskMonitor
unfolding lookup insert
record_heartbeat m id now = elim (lookup id m.watched) [
  | none ↦ m
  | some wt ↦ record m { watched = insert id (record wt { last_heartbeat = now }) m.watched }
]

abbrev pub active_tasks : TaskMonitor → List Text
active_tasks m = map (λ (p : Text × WatchedTask). p.0) m.watched

-- A check that fires; a timeout hides a stall.
pub data Verdict : Type 0 where
  timed_out stalled : Verdict

unfoldable pub verdict : MonitorConfig → ℕ → WatchedTask → Option Verdict
verdict config now wt =
    if ltb wt.timeout (now - wt.started_at)
    then some timed_out
    else if ltb config.stall_threshold (now - wt.last_heartbeat)
    then some stalled
    else none

-- The loop under the read lock.
unfoldable pub checks : MonitorConfig → ℕ → Assoc WatchedTask → Assoc Verdict
unfolding verdict
checks config now [] = []
checks config now ((id, wt) ∷ rest) = elim (verdict config now wt) [
  | none ↦ checks config now rest
  | some v ↦ (id, v) ∷ checks config now rest
]

-- What the loop over the checks leaves in the table.
unfoldable pub fire : Assoc Verdict → Assoc WatchedTask → Assoc WatchedTask
unfolding delete
fire [] watched = watched
fire ((id, timed_out) ∷ rest) watched = fire rest (delete id watched)
fire ((id, stalled) ∷ rest) watched = fire rest watched

-- checkTasks: the calls of the handler, OnTaskTimeout or OnTaskStalled, and the monitor.
unfoldable pub check_tasks : TaskMonitor → ℕ → Assoc Verdict × TaskMonitor
unfolding checks fire
check_tasks m now =
    let fired = checks m.config now m.watched in
    (fired, record m { watched = fire fired m.watched })
