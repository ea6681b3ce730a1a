-- ===== src/Scheduler/Core.antt =====
-- internal/hivemind/service/scheduler/scheduler.go: the state of the scheduler and its dispatch. Each
-- method runs as a whole. The provider and the dispatcher answer by the number of the attempt, and a time
-- is an argument. A listener is called by an entry of `delivered`. The field DefaultScoringWeights of the
-- settings, which no code reads, is left out.
pub mod Calls
pub mod Soundness
pub mod Attempts
pub mod Process
pub mod Schedule
pub mod Handlers
pub mod Endings
pub mod Run
pub mod Tests
use echoryn.Prelude.{
  Text, Assoc, lookup, insert, ℤ, pos, int_ltb, ℕ, ◌+◌, ◌-◌, Bool, List, [], ◌∷◌, ◌++◌, map, Option,
  none, some, length, ◌==◌, if◌then◌else◌,
}
use echoryn.Scheduler.Types.{
  Task, TaskState, status_assigned, ScheduleMode, direct_mode, ai_mode, other_mode, ScheduleRequest,
  GolemProfile,
}
use echoryn.Scheduler.Queue.{PriorityQueue, new_priority_queue}
use echoryn.Scheduler.Selector.{
  Scoring, NodeScore, ScheduleDecision, SelectError, Selection, chosen, refused, direct_select,
  ai_select,
}
use echoryn.Scheduler.Monitor.{
  MonitorConfig, default_monitor_config, TaskMonitor, new_monitor, watch,
}
use echoryn.Scheduler.Stats.{StatsCollector, new_stats_collector, record_assignment}

pub record SchedulerConfig : Type 0 where
  pub dispatch_concurrency : ℤ
  pub schedule_loop_interval : ℤ
  pub max_retries : ℤ
  pub monitor_config : MonitorConfig

abbrev pub default_scheduler_config : SchedulerConfig
default_scheduler_config = record {
  dispatch_concurrency = pos 8;
  schedule_loop_interval = pos 500000000;
  max_retries = pos 3;
  monitor_config = default_monitor_config;
}

-- ProfileProvider.ListProfiles, by the number of the attempt; `none` is its error.
abbrev pub ProfileProvider : Type 0
ProfileProvider = ℕ → Option (List GolemProfile)

-- TaskDispatcher.Dispatch, by the number of the attempt: whether it returns no error.
abbrev pub TaskDispatcher : Type 0
TaskDispatcher = ℕ → Text → Task → Bool

pub record CompletedSchedulerConfig : Type 0 where
  pub config : SchedulerConfig
  pub provider : ProfileProvider
  pub dispatcher : TaskDispatcher

pub data Completion : Type 0 where
  completed : CompletedSchedulerConfig → Completion
  no_provider no_dispatcher : Completion

abbrev or_default : ℤ → ℤ → ℤ
or_default d n = if int_ltb (pos 0) n then n else d

-- SchedulerConfig.Complete; `none` is nil.
unfoldable pub complete :
    SchedulerConfig → Option ProfileProvider → Option TaskDispatcher → Completion
complete c none dispatcher = no_provider
complete c (some provider) none = no_dispatcher
complete c (some provider) (some dispatcher) = completed (record {
  config = record c {
    dispatch_concurrency = or_default (pos 8) c.dispatch_concurrency;
    schedule_loop_interval = or_default (pos 500000000) c.schedule_loop_interval;
  };
  provider = provider;
  dispatcher = dispatcher;
})

pub record TaskRecord : Type 0 where
  pub task : Task
  pub decision : ScheduleDecision
  pub request : ScheduleRequest
  pub retries : ℕ

-- A listener behind a pointer, or a TaskEventListenerFunc.
pub data Listener : Type 0 where
  object func : ℕ → Listener

pub record TaskProgress : Type 0 where
  pub task_id : Text

pub record TaskResult : Type 0 where
  pub task_id : Text
  pub success : Bool
  pub error : Text

pub data TaskEventType : Type 0 where
  event_submitted event_assigned event_progress event_completed event_failed event_cancelled
        event_timed_out event_rescheduled :
      TaskEventType

-- The texts of the field Error, with what they are made of.
pub data EventError : Type 0 where
  stalled_after : ℤ → EventError
  reported : Text → EventError

pub record TaskEvent : Type 0 where
  pub kind : TaskEventType
  pub task : Option Task
  pub decision : Option ScheduleDecision
  pub node_id : Text
  pub progress : Option TaskProgress
  pub result : Option TaskResult
  pub error : Option EventError
  pub timestamp : ℕ

abbrev pub event : TaskEventType → Option Task → ℕ → TaskEvent
event kind task now = record {
  kind = kind;
  task = task;
  decision = none;
  node_id = [];
  progress = none;
  result = none;
  error = none;
  timestamp = now;
}

-- The objects of the tasks, by their address.
abbrev pub TaskStore : Type 0
TaskStore = ℕ → TaskState

unfoldable pub write : Task → (TaskState → TaskState) → TaskStore → TaskStore
write task f objects a = if a == task.address then f (objects a) else objects a

pub record Scheduler : Type 0 where
  pub config : SchedulerConfig
  pub provider : ProfileProvider
  pub dispatcher : TaskDispatcher
  pub queue : PriorityQueue
  pub monitor : TaskMonitor
  pub stats : StatsCollector
  pub tasks : Assoc TaskRecord
  pub listeners : List Listener
  -- The world: the objects of the tasks, the calls of listeners, and the number of attempts so far.
  pub objects : TaskStore
  pub delivered : List (Listener × TaskEvent)
  pub attempts : ℕ

-- CompletedSchedulerConfig.New, in a world with the given objects.
abbrev pub new_scheduler : CompletedSchedulerConfig → TaskStore → Scheduler
new_scheduler cc objects = record {
  config = cc.config;
  provider = cc.provider;
  dispatcher = cc.dispatcher;
  queue = new_priority_queue;
  monitor = new_monitor cc.config.monitor_config;
  stats = new_stats_collector;
  tasks = [];
  listeners = [];
  objects = objects;
  delivered = [];
  attempts = 0;
}

unfoldable pub emit_event : TaskEvent → Scheduler → Scheduler
emit_event e s = record s { delivered = s.delivered ++ map (λ l. (l, e)) s.listeners }

-- What a dispatch takes from outside: the scores and sort.Slice of the AI selector, and the times at
-- which an attempt starts to select, has selected, and has dispatched.
pub record World : Type 0 where
  pub scoring : Scoring
  pub sort : List NodeScore → List NodeScore
  pub begun : ℕ → ℕ
  pub decided : ℕ → ℕ
  pub sent : ℕ → ℕ

pub data DispatchError : Type 0 where
  list_failed no_nodes : DispatchError
  unknown_mode : Text → DispatchError
  select_failed : SelectError → DispatchError
  dispatch_failed : Text → Text → DispatchError

pub data Dispatch : Type 0 where
  dispatched : ScheduleDecision → Dispatch
  not_dispatched : DispatchError → Dispatch

abbrev of_selection : Selection → Dispatch
of_selection (chosen d) = dispatched d
of_selection (refused e) = not_dispatched (select_failed e)

unfoldable pub select_by_mode :
    World → ℕ → ScheduleMode → ScheduleRequest → List GolemProfile → Dispatch
unfolding direct_select ai_select
select_by_mode w n direct_mode req candidates =
    of_selection (direct_select (w.begun n) (w.decided n) req candidates)
select_by_mode w n ai_mode req candidates =
    of_selection (ai_select w.scoring w.sort (w.begun n) (w.decided n) req candidates)
select_by_mode w n (other_mode m) req candidates = not_dispatched (unknown_mode m)

-- The first half of tryDispatch, up to the call of Select.
unfoldable pub select_node : World → ProfileProvider → ℕ → ScheduleRequest → Dispatch
unfolding select_by_mode
select_node w provider n req = elim (provider n) [
  | none ↦ not_dispatched list_failed
  | some candidates ↦
      if length candidates == 0
      then not_dispatched no_nodes
      else select_by_mode w n req.mode req candidates
]

-- The assignment of the task to the node, and the record of it.
unfoldable pub assign : ℕ → ScheduleRequest → ScheduleDecision → Scheduler → Scheduler
unfolding insert write
assign now req d s = record s {
  objects =
      write req.task
        (λ o. record o {
          assigned_node_id = d.selected_node_id;
          status = status_assigned;
          started_at = some now;
        })
        s.objects;
  tasks =
      insert req.task.id (record { task = req.task; decision = d; request = req; retries = 0 })
        s.tasks;
}

-- What follows a dispatch that returned no error.
unfoldable pub start_task : ℕ → ScheduleRequest → ScheduleDecision → Scheduler → Scheduler
unfolding record_assignment watch emit_event
start_task now req d s =
    emit_event
      (record (event event_assigned (some req.task) now) {
        decision = some d;
        node_id = d.selected_node_id;
      })
      (record s {
        stats = record_assignment req.task.id d.selected_node_id d.latency now s.stats;
        monitor = watch s.monitor req.task.id req.task.timeout now;
      })

unfoldable pub try_dispatch : World → ScheduleRequest → Scheduler → Scheduler × Dispatch
unfolding select_node assign start_task
try_dispatch w req s =
    let n = s.attempts in
    let tried = record s { attempts = n + 1 } in
    elim (select_node w s.provider n req) [
      | not_dispatched err ↦ (tried, not_dispatched err)
      | dispatched found ↦
          let d = record found { request_id = req.task.id } in
          let noted = assign (w.decided n) req d tried in
          if s.dispatcher n d.selected_node_id req.task
          then (start_task (w.sent n) req d noted, dispatched d)
          else (noted, not_dispatched (dispatch_failed req.task.id d.selected_node_id))
    ]
