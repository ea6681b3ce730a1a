-- ===== src/Scheduler/Tests.antt =====
-- internal/hivemind/service/scheduler: runs of the model, and the theorems at concrete inputs.
use mathlib.Core.List.{Mem, Perm}
use echoryn.Prelude.{
  Text, codes, same, is_empty, length, map, ℤ, pos, negsuc, int_ltb, ℕ, zero, suc, ◌≡◌, ◌↔◌, ◌⊎◌,
  refl, true, false, none, some, List, [], ◌∷◌, arith, get_elem?, ◌>>=◌,
}
use echoryn.Scheduler.Types.{direct_mode, ScheduleRequest, GolemProfile}
use echoryn.Scheduler.Builder.{
  new_schedule_request, with_direct_mode, with_ai_mode, with_required_skills, build_request,
}
use echoryn.Scheduler.Heap
use echoryn.Scheduler.Heap.Order.{IsHeap}
use echoryn.Scheduler.Queue.{
  HeapItem, item_less, PriorityQueue, new_priority_queue, enqueue, dequeue, peek, remove, drain,
}
use echoryn.Scheduler.Queue.Rank.{InOrder}
use echoryn.Scheduler.Queue.Insert.{IsValid, Enqueued, all_members, enqueue_correct}
use echoryn.Scheduler.Queue.Remove.{TakesOut, dequeue_correct, remove_correct}
use echoryn.Scheduler.Queue.Drain.{IsSorted, drain_correct}
use echoryn.Scheduler.Selector.{
  check, direct_select, ai_select, Scoring, ScheduleDecision, SelectError, NodeSelector, chosen,
  refused, not_online, cpu_too_high, directly_targeted,
}
use echoryn.Scheduler.Selector.Constraints.{IsEligible, check_iff}
use echoryn.Scheduler.Selector.Direct.{IsFirst, direct_select_iff}
use echoryn.Scheduler.Selector.Best.{IsBest, ai_select-IsBest}
use echoryn.Scheduler.Selector.Layers.{direct_selector}
use echoryn.Scheduler.Monitor.{
  TaskMonitor, default_monitor_config, new_monitor, watch, unwatch, record_heartbeat, check_tasks,
  timed_out, stalled,
}
use echoryn.Scheduler.Monitor.Checks.{IsMap, Checked, check_tasks-Checked}
use echoryn.Scheduler.Stats.{new_stats_collector}
use echoryn.Scheduler.Stats.Accounts.{
  Op, submitted, assigned, completed, apply_all, Accounts, apply_all-Accounts,
}
use echoryn.Scheduler.Insertion.{insertion_sort, insertion_sort-SortsScores}

abbrev pub request : Text → ℤ → Text → ScheduleRequest
request id priority target = record {
  task = record { id = id; priority = priority; timeout = 0; address = 0 };
  mode = direct_mode;
  target_node_id = target;
  required_capabilities = codes "shell" ∷ [];
  required_skills = codes "git" ∷ [];
  required_features = [];
  preferred_tags = [];
  resource_requirements = some (record {
    min_cpu_cores = pos 4;
    min_memory_mb = pos 0;
    min_disk_free_mb = negsuc 0;
    max_cpu_percent = pos 80;
    max_memory_percent = pos 0;
    max_active_tasks = pos 3;
  });
  hints = none;
  requested_at = 0;
}

abbrev pub low : ScheduleRequest
low = request (codes "low") (pos 1) (codes "n1")

abbrev pub high : ScheduleRequest
high = request (codes "high") (pos 5) (codes "n2")

abbrev pub held : PriorityQueue
held = record {
  heap =
      record { request = high; priority = pos 5; seq = pos 2 }
      ∷ record { request = low; priority = pos 1; seq = pos 1 }
      ∷ record { request = low; priority = pos 1; seq = pos 3 }
      ∷ [];
  seq = pos 3;
}

-- Two requests of the same priority leave in the order in which they came, after a more urgent one.
rounds :
    (enqueue new_priority_queue low >>= λ q. enqueue q high >>= λ r. enqueue r low >>= λ s. drain s)
    ≡ some (high ∷ low ∷ low ∷ [], record { heap = []; seq = pos 3 })
unfolding enqueue drain Heap.less_at Heap.first_child
rounds = refl

held-made :
    (enqueue new_priority_queue low >>= λ q. enqueue q high >>= λ r. enqueue r low) ≡ some held
unfolding enqueue Heap.less_at Heap.swap
held-made = refl

pub held-IsValid : IsValid held
unfolding item_less
held-IsValid = record {
  heap = in_order;
  stamped = all_members (λ x. int_ltb (pos 3) x.seq) false held.heap stamps;
}
  where
    in_order : IsHeap item_less 3 held.heap
    in_order zero p q = absurd (omega arith)
    in_order (suc zero) p q = refl
    in_order (suc (suc zero)) p q = refl
    in_order (suc (suc (suc c))) p q = absurd (omega arith)

    stamps : (i : ℕ) (x : HeapItem) → get_elem? held.heap i ≡ some x → int_ltb (pos 3) x.seq ≡ false
    stamps zero x e = grind arith
    stamps (suc zero) x e = grind arith
    stamps (suc (suc zero)) x e = grind arith
    stamps (suc (suc (suc i))) x e = cc

enqueue_correct_example :
    (q' : PriorityQueue) × (enqueue held high ≡ some q') × Enqueued held high q'
enqueue_correct_example = enqueue_correct held high refl held-IsValid

dequeue_correct_example :
    (x : HeapItem) × (q' : PriorityQueue) × (dequeue held ≡ some (some x.request, q'))
    × (peek held ≡ some (some x.request))
    × TakesOut held x q'
    × ((y : HeapItem) → Mem y held.heap → InOrder x y)
dequeue_correct_example = dequeue_correct held (omega arith) held-IsValid

remove_correct_example :
    ((x : HeapItem) × (q' : PriorityQueue) × (remove held (codes "low") ≡ some (true, q'))
      × (same x.request.task.id (codes "low") ≡ true)
      × TakesOut held x q')
    ⊎ ((remove held (codes "low") ≡ some (false, held))
        × ((y : HeapItem) → Mem y held.heap → same y.request.task.id (codes "low") ≡ false))
remove_correct_example = remove_correct held (codes "low") held-IsValid

drain_correct_example :
    (xs : List HeapItem) × (drain held ≡ some (map (λ x. x.request) xs, record held { heap = [] }))
    × Perm xs held.heap
    × IsSorted xs
drain_correct_example = drain_correct held held-IsValid

abbrev pub node : Text → Text → ℤ → GolemProfile
node id status load = record {
  node_info = record {
    id = id;
    status = status;
    capabilities = codes "shell" ∷ codes "browse" ∷ [];
    system_info = record { cpu_cores = pos 8; memory_mb = pos 100; disk_free_mb = pos 9 };
  };
  load = record {
    cpu_percent = load;
    memory_percent = pos 10;
    active_tasks = pos 3;
    queued_tasks = pos 0;
  };
  installed_skills =
      record { id = codes "s1"; name = codes "git"; version = codes "1.0"; capabilities = [] } ∷ [];
  supported_features = [];
  tags = [];
  health_score = pos 1;
  last_updated = 0;
}

abbrev pub nodes : List GolemProfile
nodes =
    node (codes "n0") (codes "offline") (pos 1)
    ∷ node (codes "n1") (codes "online") (pos 70)
    ∷ node (codes "n2") (codes "online") (pos 80)
    ∷ []

checks :
    (map (check low) nodes ≡ some (not_online (codes "offline")) ∷ none ∷ none ∷ [])
    × (check low (node (codes "n3") (codes "online") (pos 81))
        ≡ some (cpu_too_high (pos 81) (pos 80)))
unfolding check same
checks = (refl, refl)

n1-IsEligible : IsEligible low (node (codes "n1") (codes "online") (pos 70))
unfolding check same
n1-IsEligible = (check_iff low (node (codes "n1") (codes "online") (pos 70))).0 refl

check_iff_example :
    (check low (node (codes "n1") (codes "online") (pos 70)) ≡ none)
    ↔ IsEligible low (node (codes "n1") (codes "online") (pos 70))
check_iff_example = check_iff low (node (codes "n1") (codes "online") (pos 70))

direct_select_iff_example :
    ((d : ScheduleDecision) × (direct_select 3 8 low nodes ≡ chosen d)
      × (d.selected_node_id ≡ low.target_node_id)
      × (d.candidate_count ≡ length nodes))
    ↔ ((is_empty low.target_node_id ≡ false)
        × (c : GolemProfile) × IsFirst low.target_node_id nodes c
        × IsEligible low c)
direct_select_iff_example = direct_select_iff 3 8 low nodes

-- Scores by the load of the processor alone.
abbrev pub by_load : Scoring
by_load = record {
  capabilities = λ _ _. pos 0;
  skills = λ _ _. pos 0;
  resources = λ _ _. pos 0;
  load = λ c. c.load.cpu_percent;
  tags = λ _ _. pos 0;
  affinity = λ _ _. pos 0;
  weighted = λ a b c d e f. d;
}

ai_select-IsBest_example :
    ((d : ScheduleDecision) × (i : ℕ) × (c : GolemProfile) × (ai_select by_load insertion_sort 3 8
          low nodes
        ≡ chosen d)
      × (get_elem? nodes i ≡ some c)
      × (c.node_info.id ≡ d.selected_node_id)
      × IsBest by_load low nodes c)
    ⊎ ((e : SelectError) × (ai_select by_load insertion_sort 3 8 low nodes ≡ refused e)
        × ((i : ℕ) (c : GolemProfile) → get_elem? nodes i ≡ some c → ¬ IsEligible low c))
ai_select-IsBest_example =
    ai_select-IsBest by_load low insertion_sort insertion_sort-SortsScores 3 8 nodes

abbrev chain : List NodeSelector
chain = direct_selector 3 8 ∷ []

abbrev decision : ScheduleDecision
decision = record {
  request_id = [];
  mode = direct_mode;
  selected_node_id = codes "n1";
  reason = directly_targeted (codes "n1");
  scores = [];
  candidate_count = 3;
  eligible_count = 1;
  decided_at = 8;
  latency = 5;
}

abbrev watching : TaskMonitor
watching =
    record_heartbeat
      (watch
        (watch (watch (new_monitor default_monitor_config) (codes "t1") 100 0) (codes "t2") 0 10)
        (codes "t3") 0 10)
      (codes "t3") 60000000000

-- The first task has a limit of its own, the second has been silent for too long, the third is well.
check_run :
    check_tasks watching 60000000011
    ≡ ((codes "t1", timed_out) ∷ (codes "t2", stalled) ∷ [], unwatch watching (codes "t1"))
unfolding watch record_heartbeat check_tasks unwatch same
check_run = refl

watching-IsMap : IsMap watching.watched
unfolding watch record_heartbeat same
watching-IsMap = (refl, (refl, (refl, tt)))

check_tasks-Checked_example :
    Checked watching 60000000011
      (check_tasks watching 60000000011).0
      (check_tasks watching 60000000011).1
check_tasks-Checked_example = check_tasks-Checked watching 60000000011 watching-IsMap

abbrev calls : List Op
calls =
    submitted
    ∷ assigned (codes "t1") (codes "n1") 5 10
    ∷ completed (codes "t1") (codes "n1") 30
    ∷ assigned (codes "t2") (codes "n1") 7 40
    ∷ []

stats_run : (apply_all calls new_stats_collector).running ≡ (codes "t2", 40) ∷ []
unfolding apply_all same
stats_run = refl

apply_all-Accounts_example :
    Accounts new_stats_collector calls (apply_all calls new_stats_collector)
apply_all-Accounts_example =
    apply_all-Accounts calls new_stats_collector
      (record { latencies = omega arith; executions = omega arith })

-- A request that was directed at a node and is given back to the selector is the request as it was made, with
-- its skills.
built_run :
    build_request (
      with_ai_mode (
        with_direct_mode
          (codes "n")
          (with_required_skills (codes "go" ∷ []) (new_schedule_request low.task 7))))
    ≡ record (build_request (new_schedule_request low.task 7)) { required_skills = codes "go" ∷ [] }
unfolding new_schedule_request with_ai_mode with_direct_mode with_required_skills
built_run = refl
