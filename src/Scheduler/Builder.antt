-- ===== src/Scheduler/Builder.antt =====
-- internal/hivemind/service/scheduler/task.go: the builder of requests. Its methods change the request that it holds and
-- return the builder; the time of the request is an argument.
use echoryn.Prelude.{Text, Assoc, ℕ, Option, none, List, []}
use echoryn.Scheduler.Types.{
  Task, ScheduleRequest, ResourceRequirements, ScheduleHints, direct_mode, ai_mode,
}

pub record ScheduleRequestBuilder : Type 0 where
  pub request : ScheduleRequest

unfoldable pub new_schedule_request : Task → ℕ → ScheduleRequestBuilder
new_schedule_request task now = record {
  request = record {
    task = task;
    mode = ai_mode;
    target_node_id = [];
    required_capabilities = [];
    required_skills = [];
    required_features = [];
    preferred_tags = [];
    resource_requirements = none;
    hints = none;
    requested_at = now;
  };
}

unfoldable pub with_direct_mode : Text → ScheduleRequestBuilder → ScheduleRequestBuilder
with_direct_mode node_id b = record b {
  request = record b.request { mode = direct_mode; target_node_id = node_id };
}

unfoldable pub with_ai_mode : ScheduleRequestBuilder → ScheduleRequestBuilder
with_ai_mode b = record b { request = record b.request { mode = ai_mode; target_node_id = [] } }

unfoldable pub with_required_capabilities :
    List Text → ScheduleRequestBuilder → ScheduleRequestBuilder
with_required_capabilities caps b = record b {
  request = record b.request { required_capabilities = caps };
}

unfoldable pub with_required_skills : List Text → ScheduleRequestBuilder → ScheduleRequestBuilder
with_required_skills skills b = record b { request = record b.request { required_skills = skills } }

unfoldable pub with_required_features : List Text → ScheduleRequestBuilder → ScheduleRequestBuilder
with_required_features features b = record b {
  request = record b.request { required_features = features };
}

unfoldable pub with_preferred_tags : Assoc Text → ScheduleRequestBuilder → ScheduleRequestBuilder
with_preferred_tags tags b = record b { request = record b.request { preferred_tags = tags } }

unfoldable pub with_resource_requirements :
    Option ResourceRequirements → ScheduleRequestBuilder → ScheduleRequestBuilder
with_resource_requirements req b = record b {
  request = record b.request { resource_requirements = req };
}

unfoldable pub with_hints : Option ScheduleHints → ScheduleRequestBuilder → ScheduleRequestBuilder
with_hints hints b = record b { request = record b.request { hints = hints } }

abbrev pub build_request : ScheduleRequestBuilder → ScheduleRequest
build_request b = b.request
