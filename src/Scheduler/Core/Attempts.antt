-- ===== src/Scheduler/Core/Attempts.antt =====
-- internal/hivemind/service/scheduler/scheduler.go: the cases of tryDispatch.
use echoryn.Prelude.{lookup-insert_self, ◌+◌, ◌≡◌, refl, ◌⊎◌, inl, inr, true, false, Bool-cases}
use echoryn.Scheduler.Types.{ScheduleRequest}
use echoryn.Scheduler.Selector.{ScheduleDecision}
use echoryn.Scheduler.Monitor.{watch}
use echoryn.Scheduler.Core.{
  Scheduler, World, DispatchError, dispatch_failed, Dispatch, dispatched, not_dispatched,
  select_node, assign, start_task, try_dispatch, emit_event,
}
use echoryn.Scheduler.Core.Soundness.{Agree-record, Agree-start, IsSound}

-- The scheduler after the attempt of the request found a node.
abbrev pub noted : World → ScheduleRequest → Scheduler → ScheduleDecision → Scheduler
noted w req s d = assign (w.decided s.attempts) req d (record s { attempts = s.attempts + 1 })

abbrev pub identified : ScheduleRequest → ScheduleDecision → ScheduleDecision
identified req found = record found { request_id = req.task.id }

-- The outcomes of an attempt: no node is selected, the dispatch to the node fails, or it succeeds.
pub data Attempt (w : World) (req : ScheduleRequest) (s : Scheduler)
    : Scheduler × Dispatch → Type 0 where
  unselected :
      (err : DispatchError)
      → select_node w s.provider s.attempts req ≡ not_dispatched err
      → Attempt w req s (record s { attempts = s.attempts + 1 }, not_dispatched err)
  undelivered :
      (found : ScheduleDecision)
      → select_node w s.provider s.attempts req ≡ dispatched found
      → s.dispatcher s.attempts found.selected_node_id req.task ≡ false
      → Attempt w req s (
        noted w req s (identified req found),
        not_dispatched (dispatch_failed req.task.id found.selected_node_id),
      )
  delivered :
      (found : ScheduleDecision)
      → select_node w s.provider s.attempts req ≡ dispatched found
      → s.dispatcher s.attempts found.selected_node_id req.task ≡ true
      → Attempt w req s (
        start_task
            (w.sent s.attempts)
            req
            (identified req found)
            (noted w req s (identified req found)),
        dispatched (identified req found),
      )

pub Dispatch-cases :
    (o : Dispatch)
    → ((err : DispatchError) × (o ≡ not_dispatched err))
      ⊎ ((d : ScheduleDecision) × (o ≡ dispatched d))
Dispatch-cases (dispatched d) = inr (d, refl)
Dispatch-cases (not_dispatched err) = inl (err, refl)

pub try_dispatch-Attempt :
    (w : World) (req : ScheduleRequest) (s : Scheduler) → Attempt w req s (try_dispatch w req s)
unfolding try_dispatch
try_dispatch-Attempt w req s = elim (Dispatch-cases (select_node w s.provider s.attempts req)) [
  | inl (err, e) ↦ rw (try_dispatch, e) (unselected err e)
  | inr (found, e) ↦ elim (Bool-cases (s.dispatcher s.attempts found.selected_node_id req.task)) [
    | inl sent ↦ rw (try_dispatch, e, sent) (delivered found e sent)
    | inr lost ↦ rw (try_dispatch, e, lost) (undelivered found e lost)
  ]
]

noted-IsSound :
    (w : World) (req : ScheduleRequest) (s : Scheduler) (d : ScheduleDecision)
    → IsSound s
    → IsSound (noted w req s (identified req d))
unfolding assign
noted-IsSound w req s d h =
    Agree-record req.task.id _
      (record { named = refl; asked = refl; decided = refl; retried = inl refl }) h

-- An attempt keeps the scheduler sound, and leaves the queue and the settings alone.
pub Attempt-IsSound :
    {w : World} {req : ScheduleRequest} {s : Scheduler} {out : Scheduler × Dispatch}
    → Attempt w req s out
    → IsSound s
    → IsSound out.0 × (out.0.queue ≡ s.queue) × (out.0.config ≡ s.config)
unfolding assign start_task emit_event watch
Attempt-IsSound (unselected err e) h = (h, refl, refl)
Attempt-IsSound {w} {req} {s} (undelivered found e lost) h =
    (noted-IsSound w req s found h, refl, refl)
Attempt-IsSound {w} {req} {s} (delivered found e sent) h = (
  Agree-start req.task.id found.selected_node_id found.latency (w.sent s.attempts) _ _
      (lookup-insert_self req.task.id _ s.tasks) (noted-IsSound w req s found h),
  refl,
  refl,
)
