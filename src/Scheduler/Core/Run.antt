-- ===== src/Scheduler/Core/Run.antt =====
-- internal/hivemind/service/scheduler/scheduler.go: any sequence of calls of the scheduler.
use echoryn.Scheduler.Core.Endings.{
  Cancelled, taken_out, not_queued, cancel_correct, report_result_correct,
}
use echoryn.Prelude.{
  Text, same_iff, lookup, lookup-insert, ℕ, suc, ◌+◌, ◌<◌, ◌≤◌, ◌≡◌, refl, ◌∙◌, ◌↔◌, inl, inr, List,
  [], ◌∷◌, Option, none, some, length, arith, Bool-cases, Option-cases, ◌>>=◌, ◌==◌,
}
use echoryn.Scheduler.Types.{ScheduleRequest}
use echoryn.Scheduler.Monitor.{unwatch, record_heartbeat, Verdict, timed_out, stalled}
use echoryn.Scheduler.Stats.{record_timeout}
use echoryn.Scheduler.Stats.Accounts.{Op, apply, apply_step}
use echoryn.Scheduler.Core.{
  Scheduler, World, Listener, object, func, TaskProgress, TaskResult, emit_event,
}
use echoryn.Scheduler.Core.Calls.{
  schedule, cancel, set_status, subscribe, unsubscribe, remove_listener, on_task_timeout,
  handle_check, process_queue, report_progress, report_result, note_result,
}
use echoryn.Scheduler.Core.Soundness.{Agree-stop, IsSound, Counts, Agree-beat}
use echoryn.Scheduler.Core.Schedule.{max_seq, Counts-suc, schedule_correct}
use echoryn.Scheduler.Core.Handlers.{on_task_stalled_correct}
use echoryn.Scheduler.Core.Process.{process_queue_correct}

-- The calls: of the clients, of the monitor, of the loop over the queue, and of the transport. Unsubscribe
-- is called with a listener behind a pointer only: with a TaskEventListenerFunc it may panic, and is no call here.
pub data Call : Type 0 where
  submits : ℕ → Option ScheduleRequest → Call
  aborts : ℕ → Text → Call
  joins : Listener → Call
  leaves : ℕ → Call
  fires : ℕ → Text → Verdict → Call
  ticks : Call
  progresses : ℕ → TaskProgress → Call
  ends : ℕ → TaskResult → Call

unfoldable pub call : World → Call → Scheduler → Option Scheduler
unfolding schedule cancel subscribe unsubscribe handle_check process_queue report_progress
    report_result
call w (submits now req) s = do (s', _) ← schedule w now req s; some s'
call w (aborts now id) s = cancel now id s
call w (joins l) s = some (subscribe l s)
call w (leaves a) s = unsubscribe (object a) s
call w (fires now id v) s = handle_check now id v s
call w ticks s = process_queue w s
call w (progresses now p) s = some (report_progress now p s)
call w (ends now r) s = some (report_result now r s)

unfoldable pub run : World → List Call → Scheduler → Option Scheduler
unfolding call
run w [] s = some s
run w (c ∷ cs) s = do s' ← call w c s; run w cs s'

-- The call answers with a sound scheduler, and puts at most one request in the queue.
abbrev Answers : ℕ → Option Scheduler → Type 0
Answers n o = (s' : Scheduler) × (o ≡ some s') × IsSound s' × Counts (suc n) s'

schedule-Answers :
    (w : World) (now n : ℕ) (req : Option ScheduleRequest) (s : Scheduler)
    → IsSound s
    → Counts n s
    → n < max_seq
    → Answers n (call w (submits now req) s)
unfolding call schedule
schedule-Answers w now n none s h c room = (s, refl, h, Counts-suc n s c)
schedule-Answers w now n (some req) s h c room =
    let (s', r, e, sound, counted, _, _) = schedule_correct w now n req s h c room in
    rw e (s', refl, sound, counted)

cancel-Answers :
    (w : World) (now n : ℕ) (id : Text) (s : Scheduler)
    → IsSound s
    → Counts n s
    → Answers n (call w (aborts now id) s)
unfolding call
cancel-Answers w now n id s h c =
    let (s', e, ended, _, how) = cancel_correct now id s h in (s', e, ended.sound, counter s' how)
  where
    counter : (s' : Scheduler) → Cancelled id s s' → Counts (suc n) s'
    counter s' (taken_out x named t m) = (c.0, t.counter ∙ c.1, omega (arith, c.2))
    counter s' (not_queued others q m) = Counts-suc n s' (rw q c)

progress-Answers :
    (w : World) (now n : ℕ) (p : TaskProgress) (s : Scheduler)
    → IsSound s
    → Counts n s
    → Answers n (call w (progresses now p) s)
unfolding call report_progress emit_event record_heartbeat
progress-Answers w now n p s h c =
    (_, refl, Agree-beat _ (λ k. beat k p.task_id s) h, Counts-suc n s c)
  where
    beat :
        (k id : Text) (s : Scheduler)
        → (lookup k s.monitor.watched ≡ none)
          ↔ (lookup k (record_heartbeat s.monitor id now).watched ≡ none)
    beat k id s = elim (Option-cases (lookup id s.monitor.watched)) [
      | inl quiet ↦ rw (record_heartbeat, quiet) (λ e. e, λ e. e)
      | inr (wt, there) ↦
          rw (record_heartbeat, there)
            (ground (
              arith,
              lookup-insert id k (record wt { last_heartbeat = now }) s.monitor.watched,
              same_iff id k,
              there,
            ))
    ]

-- A result, or a failure, stops the task.
result-Answers :
    (w : World) (now n : ℕ) (r : TaskResult) (s : Scheduler)
    → IsSound s
    → Counts n s
    → Answers n (call w (ends now r) s)
unfolding call report_result note_result emit_event
result-Answers w now n r s h c =
    (_, refl, (report_result_correct now r s h).0.sound, Counts-suc n s c)

leave-Answers :
    (w : World) (n a : ℕ) (s : Scheduler) → IsSound s → Counts n s → Answers n (call w (leaves a) s)
unfolding call unsubscribe remove_listener
leave-Answers w n a s h c = let (ls, e) = removed s.listeners in rw e (_, refl, h, Counts-suc n s c)
  where
    compared :
        (l : Listener) (ls : List Listener)
        → (kept : List Listener) × (remove_listener (object a) ls ≡ some kept)
        → (kept : List Listener) × (remove_listener (object a) (l ∷ ls) ≡ some kept)
    compared (func b) ls (kept, e) = (func b ∷ kept, rw e refl)
    compared (object b) ls (kept, e) = elim (Bool-cases (b == a)) [
      | inl here ↦ (ls, rw (e, here) refl)
      | inr other ↦ (object b ∷ kept, rw (e, other) refl)
    ]

    removed :
        (ls : List Listener) → (kept : List Listener) × (remove_listener (object a) ls ≡ some kept)
    removed [] = ([], refl)
    removed (l ∷ ls) = compared l ls (removed ls)

stall-Answers :
    (w : World) (now n : ℕ) (id : Text) (s : Scheduler)
    → IsSound s
    → Counts n s
    → n < max_seq
    → Answers n (call w (fires now id stalled) s)
unfolding call handle_check
stall-Answers w now n id s h c room =
    let (s', e, sound, counted, _, _) = on_task_stalled_correct now n id s h c room in
    (s', e, sound, counted)

timeout-Answers :
    (w : World) (now n : ℕ) (id : Text) (s : Scheduler)
    → IsSound s
    → Counts n s
    → Answers n (call w (fires now id timed_out) s)
unfolding call handle_check on_task_timeout emit_event set_status unwatch record_timeout apply
timeout-Answers w now n id s h c =
    let (bounded, running, _) = apply_step (Op.timed_out id) s.stats h.bounded in
    let (_, gone) = Agree-stop id (record_timeout id s.stats) bounded running h in
    (_, refl, gone, Counts-suc n s c)

call-Answers :
    (w : World) (c : Call) (n : ℕ) (s : Scheduler)
    → IsSound s
    → Counts n s
    → n < max_seq
    → Answers n (call w c s)
unfolding call subscribe
call-Answers w (submits now req) n s h k room = schedule-Answers w now n req s h k room
call-Answers w (aborts now id) n s h k room = cancel-Answers w now n id s h k
call-Answers w (joins l) n s h k room = (_, refl, h, Counts-suc n s k)
call-Answers w (leaves a) n s h k room = leave-Answers w n a s h k
call-Answers w (fires now id timed_out) n s h k room = timeout-Answers w now n id s h k
call-Answers w (fires now id stalled) n s h k room = stall-Answers w now n id s h k room
call-Answers w ticks n s h k room =
    let (_, s', e, p) = process_queue_correct w s h in
    (s', e, p.sound, Counts-suc n s' (rw p.counter k))
call-Answers w (progresses now p) n s h k room = progress-Answers w now n p s h k
call-Answers w (ends now r) n s h k room = result-Answers w now n r s h k

-- From a sound scheduler whose queue has given out at most `n` numbers, any sequence of calls that stays
-- below the largest int64, and in which Unsubscribe is given only listeners behind pointers, runs to its end without a panic, and leaves the scheduler sound: its queue is
-- valid, each record is about the task of its key and within the limit of retries, and every running task is watched and every
-- watched task has a record.
pub run-IsSound :
    (w : World) (cs : List Call) (n : ℕ) (s : Scheduler)
    → IsSound s
    → Counts n s
    → n + length cs ≤ max_seq
    → (s' : Scheduler) × (run w cs s ≡ some s') × IsSound s' × Counts (n + length cs) s'
unfolding run
run-IsSound w [] n s h k room = (s, refl, h, (k.0, k.1, omega arith))
run-IsSound w (c ∷ cs) n s h k room =
    let (s1, e, h1, k1) = call-Answers w c n s h k (omega arith) in
    let (s', run_rest, h', (m, at, le)) = run-IsSound w cs (suc n) s1 h1 k1 (omega arith) in
    rw e (s', run_rest, h', (m, at, omega arith))
