-- ===== src/Scheduler/Selector.antt =====
-- internal/hivemind/service/scheduler/selector.go: the constraints on a node, and the selectors. A reason
-- is kept as a value with its arguments, and the text that fmt makes of it is not. The time of the start
-- and of the decision are arguments. A Go set of texts is a list.
pub mod Constraints
pub mod Direct
pub mod Layers
pub mod Best
use echoryn.Prelude.{
  Text, codes, same, is_empty, join, ℤ, pos, int_ltb, ℕ, zero, suc, ◌+◌, ◌-◌, Bool, true, false,
  not, ◌&&◌, List, [], ◌∷◌, ◌++◌, map, keep, any, all, Option, none, some, length, ◌==◌,
  if◌then◌else◌, or_else,
}
use echoryn.Scheduler.Types.{
  ScheduleMode, direct_mode, ai_mode, ResourceRequirements, ScheduleRequest, SkillInfo,
  GolemProfile, Float64,
}

pub data Rejection : Type 0 where
  not_online missing_capability missing_skill missing_feature : Text → Rejection
  insufficient_cores insufficient_memory insufficient_disk : ℤ → ℤ → Rejection
  cpu_too_high memory_too_high too_many_tasks : ℤ → ℤ → Rejection

abbrev pub member : Text → List Text → Bool
member t xs = any (same t) xs

-- The first required text that the set lacks.
unfoldable pub first_missing : List Text → List Text → Option Text
first_missing set [] = none
first_missing set (r ∷ rs) = if member r set then first_missing set rs else some r

unfoldable pub skill_set : List SkillInfo → List Text
skill_set [] = []
skill_set (sk ∷ skills) = sk.id ∷ sk.name ∷ skill_set skills

-- The bounds of 0 or below are no constraint.
abbrev pub at_least : (ℤ → ℤ → Rejection) → ℤ → ℤ → Option Rejection
at_least reason need have =
    if int_ltb (pos 0) need && int_ltb have need then some (reason have need) else none

abbrev pub at_most : (ℤ → ℤ → Rejection) → ℤ → ℤ → Option Rejection
at_most reason limit load =
    if int_ltb (pos 0) limit && int_ltb limit load then some (reason load limit) else none

unfoldable pub check_resources : ResourceRequirements → GolemProfile → Option Rejection
check_resources rr profile =
    let info = profile.node_info.system_info in
    let load = profile.load in
    or_else (at_least insufficient_cores rr.min_cpu_cores info.cpu_cores) (
      or_else (at_least insufficient_memory rr.min_memory_mb info.memory_mb) (
        or_else (at_least insufficient_disk rr.min_disk_free_mb info.disk_free_mb) (
          or_else (at_most cpu_too_high rr.max_cpu_percent load.cpu_percent) (
            or_else (at_most memory_too_high rr.max_memory_percent load.memory_percent)
              (at_most too_many_tasks rr.max_active_tasks load.active_tasks)))))

abbrev pub lacking : (Text → Rejection) → Option Text → Option Rejection
lacking reason none = none
lacking reason (some t) = some (reason t)

-- The parts 2 to 5 of constraintChecker.check, once the node is known to be online. The tests for an
-- empty requirement change nothing: an empty requirement lacks nothing.
unfoldable pub check_requirements : ScheduleRequest → GolemProfile → Option Rejection
unfolding first_missing skill_set check_resources
check_requirements req profile =
    or_else
      (lacking missing_capability
        (first_missing profile.node_info.capabilities req.required_capabilities))
      (or_else
        (lacking missing_skill
          (first_missing (skill_set profile.installed_skills) req.required_skills))
        (or_else
          (lacking missing_feature (first_missing profile.supported_features req.required_features))
          (elim req.resource_requirements [ none ↦ none | some rr ↦ check_resources rr profile ])))

-- constraintChecker.check; `none` is its empty string.
unfoldable pub check : ScheduleRequest → GolemProfile → Option Rejection
unfolding check_requirements
check req profile =
    if same profile.node_info.status (codes "online")
    then check_requirements req profile
    else some (not_online profile.node_info.status)

pub record NodeScore : Type 0 where
  pub node_id : Text
  pub total_score : Float64
  pub capability_score : Float64
  pub skill_score : Float64
  pub resource_score : Float64
  pub load_score : Float64
  pub tag_score : Float64
  pub affinity_score : Float64
  pub eligible : Bool
  pub reject_reason : Option Rejection

-- The texts of the field Reason, with what they are made of.
pub data Reason : Type 0 where
  directly_targeted : Text → Reason
  best_score : NodeScore → ℕ → Reason

pub record ScheduleDecision : Type 0 where
  pub request_id : Text
  pub mode : ScheduleMode
  pub selected_node_id : Text
  pub reason : Reason
  pub scores : List NodeScore
  pub candidate_count : ℕ
  pub eligible_count : ℕ
  pub decided_at : ℕ
  pub latency : ℕ

pub data SelectError : Type 0 where
  empty_target : SelectError
  target_not_found : Text → ℕ → SelectError
  target_rejected : Text → Rejection → SelectError
  no_candidates : SelectError
  no_eligible : ℕ → SelectError
  all_failed : ℕ → SelectError → SelectError
  -- What an empty chain says, which has no last error.
  none_tried : ℕ → SelectError

abbrev pub chain_failed : ℕ → Option SelectError → SelectError
chain_failed n none = none_tried n
chain_failed n (some last_err) = all_failed n last_err

pub data Selection : Type 0 where
  chosen : ScheduleDecision → Selection
  refused : SelectError → Selection

-- What the code asks of a NodeSelector.
pub record NodeSelector : Type 0 where
  pub name : Text
  pub select : ScheduleRequest → List GolemProfile → Selection

unfoldable pub find_target : Text → List GolemProfile → Option GolemProfile
find_target id [] = none
find_target id (c ∷ candidates) =
    if same c.node_info.id id then some c else find_target id candidates

-- DirectSelector.Select
unfoldable pub direct_select : ℕ → ℕ → ScheduleRequest → List GolemProfile → Selection
unfolding check find_target
direct_select start now req candidates =
    if is_empty req.target_node_id
    then refused empty_target
    else elim (find_target req.target_node_id candidates) [
      | none ↦ refused (target_not_found req.target_node_id (length candidates))
      | some target ↦ elim (check req target) [
        | some reason ↦ refused (target_rejected req.target_node_id reason)
        | none ↦ chosen (record {
          request_id = [];
          mode = direct_mode;
          selected_node_id = target.node_info.id;
          reason = directly_targeted req.target_node_id;
          scores = [];
          candidate_count = length candidates;
          eligible_count = 1;
          decided_at = now;
          latency = now - start;
        })
      ]
    ]

-- The six scores of a candidate and their weighted sum, which are computed with floats.
pub record Scoring : Type 0 where
  pub capabilities : ScheduleRequest → GolemProfile → Float64
  pub skills : ScheduleRequest → GolemProfile → Float64
  pub resources : ScheduleRequest → GolemProfile → Float64
  pub load : GolemProfile → Float64
  pub tags : ScheduleRequest → GolemProfile → Float64
  pub affinity : ScheduleRequest → GolemProfile → Float64
  pub weighted : Float64 → Float64 → Float64 → Float64 → Float64 → Float64 → Float64

-- AISelector.score
unfoldable pub score : Scoring → ScheduleRequest → GolemProfile → NodeScore
score s req profile =
    let capability = s.capabilities req profile in
    let skill = s.skills req profile in
    let resource = s.resources req profile in
    let load = s.load profile in
    let tag = s.tags req profile in
    let affinity = s.affinity req profile in
    record {
      node_id = profile.node_info.id;
      total_score = s.weighted capability skill resource load tag affinity;
      capability_score = capability;
      skill_score = skill;
      resource_score = resource;
      load_score = load;
      tag_score = tag;
      affinity_score = affinity;
      eligible = false;
      reject_reason = none;
    }

-- The score of a candidate with the outcome of the check, as the loop of AISelector.Select records it.
unfoldable pub checked_score : Scoring → ScheduleRequest → GolemProfile → NodeScore
unfolding check score
checked_score s req profile = elim (check req profile) [
  | some reason ↦ record (score s req profile) { eligible = false; reject_reason = some reason }
  | none ↦ record (score s req profile) { eligible = true }
]

-- AISelector.Select. The float scores are an argument, and so is sort.Slice, which leaves the order of
-- equal scores open; it keeps the length, so that the sorted list is empty where the code tests for it.
unfoldable pub ai_select :
    Scoring
    → (List NodeScore → List NodeScore)
    → ℕ
    → ℕ
    → ScheduleRequest
    → List GolemProfile
    → Selection
unfolding checked_score
ai_select s sort start now req candidates =
    let scores = map (checked_score s req) candidates in
    let eligible = keep (λ ns. ns.eligible) scores in
    if length candidates == 0 then refused no_candidates else elim (sort eligible) [
      | [] ↦ refused (no_eligible (length candidates))
      | best ∷ _ ↦ chosen (record {
        request_id = [];
        mode = ai_mode;
        selected_node_id = best.node_id;
        reason = best_score best (length eligible);
        scores = scores;
        candidate_count = length candidates;
        eligible_count = length eligible;
        decided_at = now;
        latency = now - start;
      })
    ]

-- The loop of CompositeSelector.Select, with the last error.
unfoldable pub composite_loop :
    ℕ → List NodeSelector → Option SelectError → ScheduleRequest → List GolemProfile → Selection
composite_loop n [] last_err req candidates = refused (chain_failed n last_err)
composite_loop n (s ∷ selectors) last_err req candidates = elim (s.select req candidates) [
  | chosen decision ↦ chosen decision
  | refused err ↦ composite_loop n selectors (some err) req candidates
]

unfoldable pub composite_select :
    List NodeSelector → ScheduleRequest → List GolemProfile → Selection
unfolding composite_loop
composite_select selectors = composite_loop (length selectors) selectors none

unfoldable pub composite_selector : List NodeSelector → NodeSelector
unfolding composite_select join
composite_selector selectors = record {
  name =
      codes "composite["
      ++ (join (codes "→") (map (λ (s : NodeSelector). s.name) selectors) ++ codes "]");
  select = composite_select selectors;
}

-- FilterSelector.Select
unfoldable pub filter_select :
    NodeSelector → List (GolemProfile → Bool) → ScheduleRequest → List GolemProfile → Selection
filter_select inner filters req candidates =
    inner.select req (keep (λ c. all (λ f. f c) filters) candidates)

unfoldable pub filter_selector : NodeSelector → List (GolemProfile → Bool) → NodeSelector
unfolding filter_select
filter_selector inner filters = record {
  name = codes "filtered(" ++ (inner.name ++ codes ")");
  select = filter_select inner filters;
}

abbrev pub online_filter : GolemProfile → Bool
online_filter profile = same profile.node_info.status (codes "online")

abbrev pub healthy_filter : Float64 → GolemProfile → Bool
healthy_filter min_health profile = not (int_ltb profile.health_score min_health)

abbrev pub feature_filter : List Text → GolemProfile → Bool
feature_filter features profile =
    all (λ required. member required profile.supported_features) features
