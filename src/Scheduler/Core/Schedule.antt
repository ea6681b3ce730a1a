-- ===== src/Scheduler/Core/Schedule.antt =====
-- internal/hivemind/service/scheduler/scheduler.go: Schedule.
use echoryn.Prelude.{
  insert_keeps, lookup, lookup-insert_self, ◌≢◌, pos, int_same, next_int64, ℕ, suc, ◌<◌, ◌≤◌, ◌≡◌,
  refl, ◌∙◌, ◌⊎◌, ap, inl, inr, true, false, none, some, arith, ◌==◌,
}
use echoryn.Scheduler.Types.{ScheduleRequest, status_assigned}
use echoryn.Scheduler.Queue.{PriorityQueue, enqueue}
use echoryn.Scheduler.Queue.Insert.{Enqueued, enqueue_correct}
use echoryn.Scheduler.Selector.{ScheduleDecision}
use echoryn.Scheduler.Monitor.{watch}
use echoryn.Scheduler.Stats.{StatsCollector, record_assignment, update_node, record_submission}
use echoryn.Scheduler.Stats.Accounts.{submitted, apply, apply_step}
use echoryn.Scheduler.Core.{
  Scheduler, World, TaskRecord, Dispatch, dispatched, not_dispatched, DispatchError,
  dispatch_failed, select_node, try_dispatch, emit_event, assign, start_task, write,
}
use echoryn.Scheduler.Core.Calls.{schedule, enqueue_request, accepted, queued, ScheduleResult}
use echoryn.Scheduler.Core.Soundness.{IsSound, Counts, with_queue}
use echoryn.Scheduler.Core.Attempts.{
  Attempt, unselected, undelivered, delivered, identified, try_dispatch-Attempt, Attempt-IsSound,
}
use echoryn.Scheduler.Core.Process.{IsWatched}

-- The largest number that the queue gives to a request.
abbrev pub max_seq : ℕ
max_seq = 0x7FFFFFFFFFFFFFFF

pub Counts-suc : (n : ℕ) (s : Scheduler) → Counts n s → Counts (suc n) s
Counts-suc n s (m, e, le) = (m, e, omega arith)

next_pos : (m : ℕ) → m < max_seq → next_int64 (pos m) ≡ pos (suc m)
next_pos m h = ground arith

-- Enqueue of a sound scheduler below the limit.
pub enqueue_next :
    (n : ℕ) (s : Scheduler) (req : ScheduleRequest)
    → IsSound s
    → Counts n s
    → n < max_seq
    → (q : PriorityQueue) × (enqueue s.queue req ≡ some q)
      × IsSound (record s { queue = q })
      × ((m : ℕ) × (q.seq ≡ pos m) × (m ≤ suc n))
      × Enqueued s.queue req q
enqueue_next n s req h (m, e, le) room =
    let fresh : int_same s.queue.seq (pos max_seq) ≡ false = rw e (ground arith) in
    let (q, run, put) = enqueue_correct s.queue req fresh h.queue in
    (
      q,
      run,
      with_queue s q put.valid h,
      (suc m, put.counter ∙ ap next_int64 e ∙ next_pos m (omega arith), omega arith),
      put,
    )

-- The request was dispatched by the decision `d`, that of the selector for this request: the dispatcher took the
-- task for the chosen node without an error. The task is recorded, watched and counted as running, and
-- its object names the node.
pub record Assigned (w : World) (req : ScheduleRequest) (d : ScheduleDecision) (s s' : Scheduler)
    : Type 0 where
  pub selected :
      (found : ScheduleDecision) × (select_node w s.provider s.attempts req ≡ dispatched found)
      × (d ≡ identified req found)
  pub sent : s.dispatcher s.attempts d.selected_node_id req.task ≡ true
  pub known : (rec : TaskRecord) × (lookup req.task.id s'.tasks ≡ some rec) × (rec.decision ≡ d)
  pub watched : IsWatched req.task.id s'
  pub running : lookup req.task.id s'.stats.running ≢ none
  pub node : (s'.objects req.task.address).assigned_node_id ≡ d.selected_node_id
  pub status : (s'.objects req.task.address).status ≡ status_assigned
  pub queue : s'.queue ≡ s.queue

-- Why a request was not dispatched: no node was selected, with the error `err`; or the dispatcher returned an
-- error for the selected one.
pub data IsUndispatched (w : World) (req : ScheduleRequest) (s : Scheduler)
    : DispatchError → Type 0 where
  no_node :
      (err : DispatchError)
      → select_node w s.provider s.attempts req ≡ not_dispatched err
      → IsUndispatched w req s err
  no_answer :
      (found : ScheduleDecision)
      → select_node w s.provider s.attempts req ≡ dispatched found
      → s.dispatcher s.attempts found.selected_node_id req.task ≡ false
      → IsUndispatched w req s (dispatch_failed req.task.id found.selected_node_id)

-- The statistics have no part in it.
counted-IsUndispatched :
    {w : World} {req : ScheduleRequest} {s : Scheduler} {c : StatsCollector} {err : DispatchError}
    → IsUndispatched w req (record s { stats = c }) err
    → IsUndispatched w req s err
counted-IsUndispatched (no_node err e) = no_node err e
counted-IsUndispatched (no_answer found e lost) = no_answer found e lost

-- The request waits in the queue, and nothing else runs or is watched than before.
pub record Waiting (req : ScheduleRequest) (s s' : Scheduler) : Type 0 where
  pub queue : Enqueued s.queue req s'.queue
  pub monitor : s'.monitor ≡ s.monitor
  pub running : s'.stats.running ≡ s.stats.running

pub data Scheduled (w : World) (req : ScheduleRequest) (s : Scheduler)
    : Scheduler → ScheduleResult → Type 0 where
  at_once :
      {s' : Scheduler} (d : ScheduleDecision)
      → Assigned w req d s s'
      → Scheduled w req s s' (accepted d)
  later :
      {s' : Scheduler} (err : DispatchError)
      → IsUndispatched w req s err
      → Waiting req s s'
      → Scheduled w req s s' (queued err req.task.id)

Attempt-Scheduled :
    {w : World} {req : ScheduleRequest} {s : Scheduler} {out : Scheduler × Dispatch}
    → Attempt w req s out
    → ((d : ScheduleDecision) × (out.1 ≡ dispatched d) × Assigned w req d s out.0)
      ⊎ ((err : DispatchError) × (out.1 ≡ not_dispatched err)
          × IsUndispatched w req s err
          × (out.0.queue ≡ s.queue)
          × (out.0.monitor ≡ s.monitor)
          × (out.0.stats.running ≡ s.stats.running))
unfolding assign start_task emit_event watch record_assignment write
Attempt-Scheduled (unselected err e) = inr (err, refl, no_node err e, refl, refl, refl)
Attempt-Scheduled (undelivered found e lost) =
    inr (_, refl, no_answer found e lost, refl, refl, refl)
Attempt-Scheduled {w} {req} {s} (delivered found e sent) =
    let own : (req.task.address == req.task.address) ≡ true = ground arith in
    inl (
      identified req found,
      refl,
      record {
        selected = (found, e, refl);
        sent = sent;
        known = (_, lookup-insert_self req.task.id _ s.tasks, refl);
        watched = insert_keeps req.task.id req.task.id _ s.monitor.watched (inr refl);
        running = insert_keeps req.task.id req.task.id _ s.stats.running (inr refl);
        node = rw own refl;
        status = rw own refl;
        queue = refl;
      },
    )

Attempt-tally :
    {w : World} {req : ScheduleRequest} {s : Scheduler} {out : Scheduler × Dispatch}
    → Attempt w req s out
    → out.0.stats.stats.total_submitted ≡ s.stats.stats.total_submitted
unfolding assign start_task emit_event record_assignment update_node
Attempt-tally (unselected err e) = refl
Attempt-tally (undelivered found e lost) = refl
Attempt-tally (delivered found e sent) = refl

-- As long as the queue has given out fewer numbers than the largest int64, Schedule keeps a sound scheduler
-- sound, counts one more task, and does one of two things: it dispatches the request at once, which happens only where
-- a node is selected and the dispatcher returns no error for it, so that its task is recorded, watched and running on the
-- chosen node; or, where no node is selected or the dispatcher returns an error, it adds exactly the request to the
-- queue, and nothing more is watched or runs.
pub schedule_correct :
    (w : World) (now n : ℕ) (req : ScheduleRequest) (s : Scheduler)
    → IsSound s
    → Counts n s
    → n < max_seq
    → (s' : Scheduler) × (r : ScheduleResult) × (schedule w now (some req) s ≡ some (s', r))
      × IsSound s'
      × Counts (suc n) s'
      × (s'.stats.stats.total_submitted ≡ suc s.stats.stats.total_submitted)
      × Scheduled w req s s' r
unfolding schedule enqueue_request emit_event apply record_submission
schedule_correct w now n req s h c room =
    let (bounded, running, _) = apply_step submitted s.stats h.bounded in
    let s0 : Scheduler = record s { stats = record_submission s.stats } in
    let h0 : IsSound s0 = record {
      queue = h.queue;
      records = h.records;
      known = h.known;
      seen = λ k e. running k ∙ h.seen k e;
      bounded = bounded;
    } in
    let tried = try_dispatch-Attempt w req s0 in
    let (sound, queue, _) = Attempt-IsSound tried h0 in
    let s1 = (try_dispatch w req s0).0 in
    let kept : Counts n s1 = rw queue c in
    let tally : s1.stats.stats.total_submitted ≡ suc s.stats.stats.total_submitted =
      Attempt-tally tried ∙ ground arith in
    elim (Attempt-Scheduled tried) [
      | inl (d, e, a) ↦
          rw (schedule, e)
            (
              s1,
              accepted d,
              refl,
              sound,
              Counts-suc n s1 kept,
              tally,
              at_once d (record {
                selected = a.selected;
                sent = a.sent;
                known = a.known;
                watched = a.watched;
                running = a.running;
                node = a.node;
                status = a.status;
                queue = a.queue;
              }),
            )
      | inr (err, e, why, same_queue, monitor, running) ↦
          let (q, put, sound_q, counted, added) = enqueue_next n s1 req sound kept room in
          rw (schedule, e, enqueue_request, put)
            (
              _,
              _,
              refl,
              sound_q,
              counted,
              tally,
              later err (counted-IsUndispatched why)
                  (record { queue = rw same_queue at added; monitor = monitor; running = running }),
            )
    ]
