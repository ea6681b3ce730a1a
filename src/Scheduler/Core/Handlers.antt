-- ===== src/Scheduler/Core/Handlers.antt =====
-- internal/hivemind/service/scheduler/scheduler.go: what the handlers of the monitor do, and a round of the
-- monitor with the scheduler as its handler.
use echoryn.Prelude.{
  Text, Assoc, lookup, lookup-insert_self, ℤ, pos, int_ltb, ℕ, suc, ◌+◌, ◌<◌, ◌≤◌, ◌≡◌, refl, ◌∙◌,
  ap, inl, inr, true, false, [], ◌∷◌, none, some, length, arith, Bool-cases, Option-cases,
  same_self,
}
use echoryn.Scheduler.Queue.Insert.{Enqueued}
use echoryn.Scheduler.Monitor.{unwatch, Verdict, timed_out, stalled, WatchedTask, fire, check_tasks}
use echoryn.Scheduler.Stats.{record_failure, record_timeout}
use echoryn.Scheduler.Stats.Accounts.{Op, failed, apply, apply_step}
use echoryn.Scheduler.Core.{Scheduler, TaskRecord, emit_event, TaskMonitor}
use echoryn.Scheduler.Core.Calls.{
  set_status, on_task_timeout, on_task_stalled, reschedule, fail_stalled, handle_check,
  handle_checks, poll,
}
use echoryn.Scheduler.Core.Soundness.{IsAbout, Agree-stop, Agree-record, IsSound, Counts}
use echoryn.Scheduler.Core.Schedule.{max_seq, Counts-suc, enqueue_next}

more_retries : (max : ℤ) (r : ℕ) → int_ltb (pos r) max ≡ true → int_ltb max (pos (r + 1)) ≡ false
more_retries (pos m) r h = ground arith
more_retries (ℤ.negsuc m) r h = cc

-- What OnTaskStalled does for the task `id`: nothing for an unknown task; with retries left, it puts the
-- request of the record in the queue and counts the retry; else it counts a failure. The task stays watched.
pub data Stall (id : Text) (s : Scheduler) : Scheduler → Type 0 where
  unknown : lookup id s.tasks ≡ none → Stall id s s
  again :
      {s' : Scheduler} (rec : TaskRecord)
      → lookup id s.tasks ≡ some rec
      → int_ltb (pos rec.retries) s.config.max_retries ≡ true
      → Enqueued s.queue rec.request s'.queue
      → lookup id s'.tasks ≡ some (record rec { retries = suc rec.retries })
      → s'.stats ≡ s.stats
      → Stall id s s'
  spent :
      {s' : Scheduler} (rec : TaskRecord)
      → lookup id s.tasks ≡ some rec
      → int_ltb (pos rec.retries) s.config.max_retries ≡ false
      → s'.queue ≡ s.queue
      → s'.tasks ≡ s.tasks
      → lookup id s'.stats.running ≡ none
      → s'.stats.stats.total_failed ≡ suc s.stats.stats.total_failed
      → Stall id s s'

-- Below the limit of the queue's counter, OnTaskStalled does exactly one of three things: nothing for an
-- unknown task; one more retry, with the request of the record put in the queue; or, once the retries have
-- reached MaxRetries, a failure that is counted while nothing is queued. In all three the table of watched
-- tasks stays as it is.
pub on_task_stalled_correct :
    (now n : ℕ) (id : Text) (s : Scheduler)
    → IsSound s
    → Counts n s
    → n < max_seq
    → (s' : Scheduler) × (on_task_stalled now id s ≡ some s')
      × IsSound s'
      × Counts (suc n) s'
      × (s'.monitor ≡ s.monitor)
      × Stall id s s'
unfolding on_task_stalled reschedule fail_stalled emit_event apply
on_task_stalled_correct now n id s h c room = elim (Option-cases (lookup id s.tasks)) [
  | inl missing ↦
      rw (on_task_stalled, missing) (s, refl, h, Counts-suc n s c, refl, unknown missing)
  | inr (rec, there) ↦ elim (Bool-cases (int_ltb (pos rec.retries) s.config.max_retries)) [
    | inr over ↦
        let (bounded, running, _) = apply_step (failed id []) s.stats h.bounded in
        let (quiet, _) = Agree-stop id (record_failure id [] s.stats) bounded running h in
        rw (on_task_stalled, there, over)
          (
            _,
            refl,
            quiet,
            Counts-suc n s c,
            refl,
            spent rec there over refl refl (running id ∙ rw (same_self id) refl) (omega arith),
          )
    | inl left ↦
        let old = h.records id rec there in
        let (q, put, sound, counted, added) = enqueue_next n s rec.request h c room in
        let about : IsAbout s.config.max_retries id (record rec { retries = rec.retries + 1 }) =
          record {
            named = old.named;
            asked = old.asked;
            decided = old.decided;
            retried = inr (more_retries s.config.max_retries rec.retries left);
          } in
        rw (on_task_stalled, there, left, put)
          (
            _,
            refl,
            Agree-record id (record rec { retries = rec.retries + 1 }) about sound,
            counted,
            refl,
            again rec there left added
                (lookup-insert_self id _ s.tasks
                  ∙ ap (λ n. some (record rec { retries = n })) (omega arith))
                refl,
          )
  ]
]

-- A handler touches the table of watched tasks only to remove a task that timed out.
handle_check_correct :
    (now n : ℕ) (id : Text) (v : Verdict) (s : Scheduler)
    → IsSound s
    → Counts n s
    → n < max_seq
    → (s' : Scheduler) × (handle_check now id v s ≡ some s')
      × IsSound s'
      × Counts (suc n) s'
      × (s'.monitor.config ≡ s.monitor.config)
      × (s'.monitor.watched ≡ fire ((id, v) ∷ []) s.monitor.watched)
unfolding handle_check on_task_timeout emit_event set_status unwatch record_timeout apply fire
handle_check_correct now n id timed_out s h c room =
    let (bounded, running, _) = apply_step (Op.timed_out id) s.stats h.bounded in
    let (_, gone) = Agree-stop id (record_timeout id s.stats) bounded running h in
    (_, refl, gone, Counts-suc n s c, refl, refl)
handle_check_correct now n id stalled s h c room =
    let (s', e, sound, counted, m, _) = on_task_stalled_correct now n id s h c room in
    (s', e, sound, counted, ap (λ x. x.config) m, ap (λ x. x.watched) m)

handle_checks_correct :
    (now n : ℕ) (fired : Assoc Verdict) (s : Scheduler)
    → IsSound s
    → Counts n s
    → n + length fired ≤ max_seq
    → (s' : Scheduler) × (handle_checks now fired s ≡ some s')
      × IsSound s'
      × Counts (n + length fired) s'
      × (s'.monitor.config ≡ s.monitor.config)
      × (s'.monitor.watched ≡ fire fired s.monitor.watched)
unfolding handle_checks fire
handle_checks_correct now n [] s h c room = (s, refl, h, (c.0, c.1, omega arith), refl, refl)
handle_checks_correct now n ((id, v) ∷ fired) s h c room =
    let (s1, e, h1, c1, config, table) = handle_check_correct now n id v s h c (omega arith) in
    let (s', run, h', (m, at, le), config', table') =
      handle_checks_correct now (suc n) fired s1 h1 c1 (omega arith) in
    rw e (
      s',
      run,
      h',
      (m, at, omega arith),
      config' ∙ config,
      table' ∙ ap (fire fired) table ∙ one_by_one id v fired s.monitor.watched,
    )
  where
    one_by_one :
        (id : Text) (v : Verdict) (fired : Assoc Verdict) (m : Assoc WatchedTask)
        → fire fired (fire ((id, v) ∷ []) m) ≡ fire ((id, v) ∷ fired) m
    one_by_one id timed_out fired m = refl
    one_by_one id stalled fired m = refl

-- A round of the monitor over a sound scheduler, with room in the queue's counter for the events that fire,
-- handles them all without a panic, leaves the scheduler sound, and leaves the table of watched tasks that
-- the check alone leaves.
pub poll_correct :
    (now n : ℕ) (s : Scheduler)
    → IsSound s
    → Counts n s
    → n + length (check_tasks s.monitor now).0 ≤ max_seq
    → (s' : Scheduler) × (poll now s ≡ some s')
      × IsSound s'
      × (s'.monitor ≡ (check_tasks s.monitor now).1)
unfolding poll check_tasks
poll_correct now n s h c room =
    let (s', e, sound, _, config, table) =
      handle_checks_correct now n (check_tasks s.monitor now).0 s h c room in
    (s', e, sound, monitor_path config table)
  where
    monitor_path : {m m' : TaskMonitor} → m.config ≡ m'.config → m.watched ≡ m'.watched → m ≡ m'
    monitor_path p q = λ i. record { config = p i; watched = q i }
