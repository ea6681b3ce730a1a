-- ===== src/Scheduler/Core/Calls.antt =====
-- internal/hivemind/service/scheduler/scheduler.go: the methods of the scheduler, the handlers of the monitor
-- and the reports of the transport. `none` is a run-time panic or a loop that does not end. Enqueue and
-- Watch return no error, so that the branches for one are left out.
use echoryn.Prelude.{
  Text, lookup, insert, pos, int_ltb, ℕ, zero, suc, ◌+◌, Bool, true, false, List, [], ◌∷◌, ◌++◌,
  Option, none, some, ◌==◌, if◌then◌else◌, ◌>>=◌, Assoc,
}
use echoryn.Scheduler.Types.{
  Task, TaskState, TaskStatus, status_cancelled, status_timed_out, status_completed, status_failed,
  ScheduleRequest,
}
use echoryn.Scheduler.Queue.{enqueue, dequeue, peek, remove, len}
use echoryn.Scheduler.Selector.{ScheduleDecision}
use echoryn.Scheduler.Monitor.{unwatch, record_heartbeat, Verdict, timed_out, stalled, check_tasks}
use echoryn.Scheduler.Stats.{
  StatsCollector, SchedulerStats, record_submission, record_completion, record_failure,
  record_cancellation, record_timeout, snapshot,
}
use echoryn.Scheduler.Core.{
  TaskRecord, Listener, object, func, TaskProgress, TaskResult, TaskEvent, event, event_submitted,
  event_progress, event_completed, event_failed, event_cancelled, event_timed_out,
  event_rescheduled, stalled_after, reported, write, Scheduler, emit_event, World, DispatchError,
  dispatched, not_dispatched, try_dispatch,
}

pub data ScheduleResult : Type 0 where
  accepted : ScheduleDecision → ScheduleResult
  queued : DispatchError → Text → ScheduleResult
  no_task : ScheduleResult

-- The rest of Schedule after a dispatch that failed.
unfoldable pub enqueue_request :
    ℕ → ScheduleRequest → DispatchError → Scheduler → Option (Scheduler × ScheduleResult)
unfolding enqueue emit_event
enqueue_request now req err s = do
  q ← enqueue s.queue req
  some (
    emit_event (event event_submitted (some req.task) now) (record s { queue = q }),
    queued err req.task.id,
  )

-- Schedule; `none` is a request whose task is nil.
unfoldable pub schedule :
    World → ℕ → Option ScheduleRequest → Scheduler → Option (Scheduler × ScheduleResult)
unfolding record_submission try_dispatch enqueue_request
schedule w now none s = some (s, no_task)
schedule w now (some req) s =
    let (s', outcome) = try_dispatch w req (record s { stats = record_submission s.stats }) in
    elim outcome [
      | dispatched d ↦ some (s', accepted d)
      | not_dispatched err ↦ enqueue_request now req err s'
    ]

unfoldable pub get_task : Text → Scheduler → Option Task
unfolding lookup
get_task id s = elim (lookup id s.tasks) [ none ↦ none | some rec ↦ some rec.task ]

-- The write of a status through the record of a task, where there is one.
unfoldable pub set_status : TaskStatus → Text → Scheduler → Scheduler
unfolding lookup write
set_status status id s = record s {
  objects = elim (lookup id s.tasks) [
    | none ↦ s.objects
    | some rec ↦ write rec.task (λ o. record o { status = status }) s.objects
  ];
}

-- What Cancel does last, for a queued task and for another.
unfoldable pub note_cancelled : ℕ → Text → Scheduler → Scheduler
unfolding record_cancellation set_status get_task emit_event
note_cancelled now id s =
    let marked =
      set_status status_cancelled id (record s { stats = record_cancellation id s.stats }) in
    emit_event (event event_cancelled (get_task id marked) now) marked

unfoldable pub cancel : ℕ → Text → Scheduler → Option Scheduler
unfolding remove unwatch note_cancelled
cancel now id s = do
  (found, q) ← remove s.queue id
  some (
      if found
      then note_cancelled now id (record s { queue = q })
      else note_cancelled now id (record s { queue = q; monitor = unwatch s.monitor id }))

-- Status: the task and what its object holds; `none` is the error.
unfoldable pub status : Text → Scheduler → Option (Task × TaskState)
unfolding lookup
status id s = elim (lookup id s.tasks) [
  | none ↦ none
  | some rec ↦ some (rec.task, s.objects rec.task.address)
]

unfoldable pub stats : ℕ → Scheduler → SchedulerStats
unfolding snapshot
stats now s = snapshot (len s.queue) now s.stats

unfoldable pub subscribe : Listener → Scheduler → Scheduler
subscribe l s = record s { listeners = s.listeners ++ (l ∷ []) }

-- Go's `==` on two listeners: functions cannot be compared.
abbrev pub same_listener : Listener → Listener → Option Bool
same_listener (object a) (object b) = some (a == b)
same_listener (func a) (func b) = none
same_listener _ _ = some false

-- The loop of Unsubscribe.
unfoldable pub remove_listener : Listener → List Listener → Option (List Listener)
remove_listener listener [] = some []
remove_listener listener (l ∷ ls) = do
  found ← same_listener l listener
  rest ← if found then some ls else do kept ← remove_listener listener ls; some (l ∷ kept)
  some rest

unfoldable pub unsubscribe : Listener → Scheduler → Option Scheduler
unfolding remove_listener
unsubscribe listener s = do
  ls ← remove_listener listener s.listeners
  some (record s { listeners = ls })

unfoldable pub on_task_timeout : ℕ → Text → Scheduler → Scheduler
unfolding record_timeout set_status get_task emit_event
on_task_timeout now id s =
    let marked = set_status status_timed_out id (record s { stats = record_timeout id s.stats }) in
    emit_event (event event_timed_out (get_task id marked) now) marked

unfoldable pub reschedule : ℕ → Text → TaskRecord → Scheduler → Option Scheduler
unfolding insert enqueue emit_event
reschedule now id rec s = do
  q ← enqueue s.queue rec.request
  some (
      emit_event (event event_rescheduled (some rec.task) now) (record s {
        tasks = insert id (record rec { retries = rec.retries + 1 }) s.tasks;
        queue = q;
      }))

unfoldable pub fail_stalled : ℕ → Text → Scheduler → Scheduler
unfolding record_failure get_task emit_event
fail_stalled now id s =
    emit_event
      (record (event event_failed (get_task id s) now) {
        error = some (stalled_after s.config.max_retries);
      })
      (record s { stats = record_failure id [] s.stats })

unfoldable pub on_task_stalled : ℕ → Text → Scheduler → Option Scheduler
unfolding lookup reschedule fail_stalled
on_task_stalled now id s = elim (lookup id s.tasks) [
  | none ↦ some s
  | some rec ↦
      if int_ltb (pos rec.retries) s.config.max_retries
      then reschedule now id rec s
      else some (fail_stalled now id s)
]

-- The loop over the checks that fired, with the removal of a task that timed out.
unfoldable pub handle_check : ℕ → Text → Verdict → Scheduler → Option Scheduler
unfolding on_task_timeout on_task_stalled unwatch
handle_check now id timed_out s =
    let told = on_task_timeout now id s in some (record told { monitor = unwatch told.monitor id })
handle_check now id stalled s = on_task_stalled now id s

unfoldable pub handle_checks : ℕ → Assoc Verdict → Scheduler → Option Scheduler
unfolding handle_check
handle_checks now [] s = some s
handle_checks now ((id, v) ∷ fired) s = do s' ← handle_check now id v s; handle_checks now fired s'

-- A round of the monitor's loop with the scheduler as its handler.
unfoldable pub poll : ℕ → Scheduler → Option Scheduler
unfolding check_tasks handle_checks
poll now s = handle_checks now (check_tasks s.monitor now).0 s

unfoldable pub process_loop : ℕ → World → Scheduler → Option Scheduler
unfolding peek try_dispatch dequeue
process_loop zero w s = none
process_loop (suc fuel) w s = do
  head ← peek s.queue
  elim head [
    | none ↦ some s
    | some req ↦
        let (s', outcome) = try_dispatch w req s in
        elim outcome [
          | not_dispatched _ ↦ some s'
          | dispatched _ ↦ do
            (_, q) ← dequeue s'.queue
            process_loop fuel w (record s' { queue = q })
        ]
  ]

-- processQueue; a round takes one request out of the queue.
unfoldable pub process_queue : World → Scheduler → Option Scheduler
unfolding process_loop
process_queue w s = process_loop (len s.queue + 1) w s

unfoldable pub report_progress : ℕ → TaskProgress → Scheduler → Scheduler
unfolding record_heartbeat get_task emit_event
report_progress now progress s =
    emit_event
      (record (event event_progress (get_task progress.task_id s) now) { progress = some progress })
      (record s { monitor = record_heartbeat s.monitor progress.task_id now })

abbrev pub result_status : Bool → TaskStatus
result_status true = status_completed
result_status false = status_failed

-- The part of ReportResult under the lock: the object of the task, and the node that had it.
unfoldable pub note_result : ℕ → TaskResult → Scheduler → Scheduler × Text
unfolding lookup write
note_result now result s = (
  record s {
    objects = elim (lookup result.task_id s.tasks) [
      | none ↦ s.objects
      | some rec ↦
          write rec.task
            (λ o. record o { completed_at = some now; status = result_status result.success })
            s.objects
    ];
  },
  elim (lookup result.task_id s.tasks) [ none ↦ [] | some rec ↦ rec.decision.selected_node_id ],
)

-- The two branches of ReportResult after the lock: the count and the event of a success and of a failure.
unfoldable pub count_result : Bool → Text → Text → ℕ → StatsCollector → StatsCollector
unfolding record_completion record_failure
count_result true id node_id now c = record_completion id node_id now c
count_result false id node_id now c = record_failure id node_id c

abbrev result_event : Bool → Option Task → TaskResult → Text → ℕ → TaskEvent
result_event true task result node_id now = record (event event_completed task now) {
  result = some result;
  node_id = node_id;
}
result_event false task result node_id now = record (event event_failed task now) {
  result = some result;
  node_id = node_id;
  error = some (reported result.error);
}

unfoldable pub report_result : ℕ → TaskResult → Scheduler → Scheduler
unfolding unwatch note_result count_result get_task emit_event
report_result now result s =
    let id = result.task_id in
    let (noted, node_id) = note_result now result (record s { monitor = unwatch s.monitor id }) in
    emit_event (result_event result.success (get_task id noted) result node_id now)
      (record noted { stats = count_result result.success id node_id now noted.stats })
