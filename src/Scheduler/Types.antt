-- ===== src/Scheduler/Types.antt =====
-- internal/hivemind/service/scheduler/task.go: the requests and the profiles of nodes. A float is
-- finite, and stands as its multiple of the least positive float64 (2 ^ -1074), which keeps its order.
-- The package `protocol` is not in the repository: of its types the fields that the scheduler uses
-- are kept.
use echoryn.Prelude.{Text, Assoc, ℤ, ℕ, List, Option, Bool}

abbrev pub Float64 : Type 0
Float64 = ℤ

-- protocol.Task, a pointer: the fields that no code here writes, and the address of the object that holds
-- the others. A timeout is not negative.
pub record Task : Type 0 where
  pub id : Text
  pub priority : ℤ
  pub timeout : ℕ
  pub address : ℕ

-- protocol.TaskStatus, by the constants that the scheduler writes.
pub data TaskStatus : Type 0 where
  status_assigned status_cancelled status_timed_out status_completed status_failed : TaskStatus
  status_other : Text → TaskStatus

-- The fields of a task that the scheduler writes, which all pointers to it share.
pub record TaskState : Type 0 where
  pub status : TaskStatus
  pub assigned_node_id : Text
  pub started_at : Option ℕ
  pub completed_at : Option ℕ

pub data ScheduleMode : Type 0 where
  direct_mode ai_mode : ScheduleMode
  other_mode : Text → ScheduleMode

pub record ResourceRequirements : Type 0 where
  pub min_cpu_cores : ℤ
  pub min_memory_mb : ℤ
  pub min_disk_free_mb : ℤ
  pub max_cpu_percent : Float64
  pub max_memory_percent : Float64
  pub max_active_tasks : ℤ

pub record ScheduleHints : Type 0 where
  pub description : Text
  pub prefer_low_latency : Bool
  pub prefer_high_resources : Bool
  pub affinity : Text
  pub anti_affinity : List Text
  pub custom_context : Assoc Text

-- The task of a request is present: Schedule refuses a request without one.
pub record ScheduleRequest : Type 0 where
  pub task : Task
  pub mode : ScheduleMode
  pub target_node_id : Text
  pub required_capabilities : List Text
  pub required_skills : List Text
  pub required_features : List Text
  pub preferred_tags : Assoc Text
  pub resource_requirements : Option ResourceRequirements
  pub hints : Option ScheduleHints
  pub requested_at : ℕ

-- protocol.NodeInfo with its SystemInfo, and protocol.NodeLoadInfo
pub record SystemInfo : Type 0 where
  pub cpu_cores : ℤ
  pub memory_mb : ℤ
  pub disk_free_mb : ℤ

pub record NodeInfo : Type 0 where
  pub id : Text
  pub status : Text
  pub capabilities : List Text
  pub system_info : SystemInfo

pub record NodeLoadInfo : Type 0 where
  pub cpu_percent : Float64
  pub memory_percent : Float64
  pub active_tasks : ℤ
  pub queued_tasks : ℤ

pub record SkillInfo : Type 0 where
  pub id : Text
  pub name : Text
  pub version : Text
  pub capabilities : List Text

pub record GolemProfile : Type 0 where
  pub node_info : NodeInfo
  pub load : NodeLoadInfo
  pub installed_skills : List SkillInfo
  pub supported_features : List Text
  pub tags : Assoc Text
  pub health_score : Float64
  pub last_updated : ℕ
