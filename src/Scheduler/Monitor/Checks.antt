-- ===== src/Scheduler/Monitor/Checks.antt =====
-- internal/hivemind/service/scheduler/monitor.go: what a check of the watched tasks fires and leaves.
use echoryn.Prelude.{
  ◌-◌, Text, same, same_iff, Assoc, lookup, delete, lookup-delete, ℕ, ◌≡◌, refl, sym, ◌∙◌, Bool,
  true, false, ◌&&◌, ◌||◌, [], ◌∷◌, Option, none, some, Bool-cases, Option-cases, inl, inr, arith,
  if◌then◌else◌, ◌≤◌, ◌<◌, ap,
}
use echoryn.Scheduler.Monitor.{
  MonitorConfig, WatchedTask, TaskMonitor, Verdict, timed_out, stalled, verdict, checks, fire,
  check_tasks,
}

-- No key is repeated.
abbrev pub IsMap : {V : Type 0} → Assoc V → Type 0
IsMap [] = Unit
IsMap ((k, v) ∷ m) = (lookup k m ≡ none) × IsMap m

abbrev is_timeout : Option Verdict → Bool
is_timeout (some timed_out) = true
is_timeout _ = false

-- The key times out in the list of checks.
abbrev expires : Text → Assoc Verdict → Bool
expires k [] = false
expires k ((j, v) ∷ cs) = (same j k && is_timeout (some v)) || expires k cs

abbrev unless {ℓ} : {A : Type ℓ} → Bool → Option A → Option A
unless true o = none
unless false o = o

same_sym : (s t : Text) → same s t ≡ same t s
same_sym s t = ground (arith, same_iff s t, same_iff t s)

fire-lookup :
    (cs : Assoc Verdict) (k : Text) (m : Assoc WatchedTask)
    → lookup k (fire cs m) ≡ unless (expires k cs) (lookup k m)
unfolding fire
fire-lookup [] k m = refl
fire-lookup ((j, timed_out) ∷ cs) k m =
    fire-lookup cs k (delete j m)
    ∙ rw (lookup-delete j k m) (both (same j k) (expires k cs) (lookup k m))
  where
    both :
        (b c : Bool) (o : Option WatchedTask)
        → unless c (if b then none else o) ≡ unless ((b && true) || c) o
    both true true o = refl
    both true false o = refl
    both false true o = refl
    both false false o = refl
fire-lookup ((j, stalled) ∷ cs) k m =
    fire-lookup cs k m ∙ drop_false (same j k) (expires k cs) (lookup k m)
  where
    drop_false : (b c : Bool) (o : Option WatchedTask) → unless c o ≡ unless ((b && false) || c) o
    drop_false true true o = refl
    drop_false true false o = refl
    drop_false false true o = refl
    drop_false false false o = refl

abbrev bind_verdict : MonitorConfig → ℕ → Option WatchedTask → Option Verdict
bind_verdict config now none = none
bind_verdict config now (some wt) = verdict config now wt

checks-lookup :
    (config : MonitorConfig) (now : ℕ) (m : Assoc WatchedTask) (k : Text)
    → IsMap m
    → lookup k (checks config now m) ≡ bind_verdict config now (lookup k m)
unfolding checks lookup
checks-lookup config now [] k h = refl
checks-lookup config now ((j, wt) ∷ m) k h =
    let ih = checks-lookup config now m k h.1 in
    elim (Option-cases (verdict config now wt)) [
      | inl quiet ↦ elim (Bool-cases (same j k)) [
        | inl here ↦
            let key : j ≡ k = (same_iff j k).0 here in
            let gone : lookup k m ≡ none = rw key at h.0 in
            rw (checks, quiet, here) (rw gone at ih ∙ sym quiet)
        | inr other ↦ rw (checks, quiet, other) ih
      ]
      | inr (v, fires) ↦ elim (Bool-cases (same j k)) [
        | inl here ↦ rw (checks, fires, lookup, here) (sym fires)
        | inr other ↦ rw (checks, fires, lookup, other) ih
      ]
    ]

checks-IsMap :
    (config : MonitorConfig) (now : ℕ) (m : Assoc WatchedTask)
    → IsMap m
    → IsMap (checks config now m)
unfolding checks
checks-IsMap config now [] h = tt
checks-IsMap config now ((j, wt) ∷ m) h = elim (Option-cases (verdict config now wt)) [
  | inl quiet ↦ rw (checks, quiet) (checks-IsMap config now m h.1)
  | inr (v, fires) ↦
      let absent : lookup j (checks config now m) ≡ none =
        checks-lookup config now m j h.1 ∙ rw (h.0) refl in
      rw (checks, fires) (absent, checks-IsMap config now m h.1)
]

delete-IsMap : (k : Text) (m : Assoc WatchedTask) → IsMap m → IsMap (delete k m)
unfolding delete
delete-IsMap k [] h = tt
delete-IsMap k ((j, wt) ∷ m) h = elim (Bool-cases (same j k)) [
  | inl here ↦ rw (delete, here) (delete-IsMap k m h.1)
  | inr other ↦
      let absent : lookup j (delete k m) ≡ none =
        lookup-delete k j m ∙ if_same (same k j) (lookup j m) h.0 in
      rw (delete, other) (absent, delete-IsMap k m h.1)
]
  where
    if_same : (b : Bool) (o : Option WatchedTask) → o ≡ none → (if b then none else o) ≡ none
    if_same true o e = refl
    if_same false o e = e

fire-IsMap : (cs : Assoc Verdict) (m : Assoc WatchedTask) → IsMap m → IsMap (fire cs m)
unfolding fire
fire-IsMap [] m h = h
fire-IsMap ((j, timed_out) ∷ cs) m h = fire-IsMap cs (delete j m) (delete-IsMap j m h)
fire-IsMap ((j, stalled) ∷ cs) m h = fire-IsMap cs m h

expires-lookup :
    (k : Text) (cs : Assoc Verdict) → IsMap cs → expires k cs ≡ is_timeout (lookup k cs)
unfolding lookup
expires-lookup k [] h = refl
expires-lookup k ((j, v) ∷ cs) h = elim (Bool-cases (same j k)) [
  | inl here ↦
      let key : j ≡ k = (same_iff j k).0 here in
      let gone : lookup k cs ≡ none = rw key at h.0 in
      rw (lookup, here, expires-lookup k cs h.1, gone) (or_false (is_timeout (some v)))
  | inr other ↦ rw (lookup, other) (expires-lookup k cs h.1)
]
  where
    or_false : (b : Bool) → (b || false) ≡ b
    or_false true = refl
    or_false false = refl

abbrev ran : ℕ → WatchedTask → ℕ
ran now wt = now - wt.started_at

abbrev silent : ℕ → WatchedTask → ℕ
silent now wt = now - wt.last_heartbeat

-- What a check of the monitor `m` at the time `now` has to give.
pub record Checked (m : TaskMonitor) (now : ℕ) (fired : Assoc Verdict) (m' : TaskMonitor)
    : Type 0 where
  pub once : IsMap fired
  pub late :
      (k : Text) (wt : WatchedTask)
      → lookup k m.watched ≡ some wt
      → wt.timeout < ran now wt
      → (lookup k fired ≡ some timed_out) × (lookup k m'.watched ≡ none)
  pub mute :
      (k : Text) (wt : WatchedTask)
      → lookup k m.watched ≡ some wt
      → ran now wt ≤ wt.timeout
      → m.config.stall_threshold < silent now wt
      → (lookup k fired ≡ some stalled) × (lookup k m'.watched ≡ some wt)
  pub well :
      (k : Text) (wt : WatchedTask)
      → lookup k m.watched ≡ some wt
      → ran now wt ≤ wt.timeout
      → silent now wt ≤ m.config.stall_threshold
      → (lookup k fired ≡ none) × (lookup k m'.watched ≡ some wt)
  pub unknown :
      (k : Text)
      → lookup k m.watched ≡ none
      → (lookup k fired ≡ none) × (lookup k m'.watched ≡ none)
  pub table : IsMap m'.watched
  pub setting : m'.config ≡ m.config

module _ (config : MonitorConfig) (now : ℕ) (watched : Assoc WatchedTask) (h : IsMap watched) where
  -- The event and the entry of a task after the check, from its verdict.
  outcome :
      (k : Text) (o : Option WatchedTask) (v : Option Verdict)
      → lookup k watched ≡ o
      → bind_verdict config now o ≡ v
      → (lookup k (checks config now watched) ≡ v)
        × (lookup k (fire (checks config now watched) watched) ≡ unless (is_timeout v) o)
  outcome k o v found judged =
      let event : lookup k (checks config now watched) ≡ v =
        checks-lookup config now watched k h ∙ ap (bind_verdict config now) found ∙ judged in
      let unique = checks-IsMap config now watched h in
      (
        event,
        fire-lookup (checks config now watched) k watched
            ∙ rw (expires-lookup k (checks config now watched) unique, event, found) refl,
      )

verdict-late :
    (config : MonitorConfig) (now : ℕ) (wt : WatchedTask)
    → wt.timeout < ran now wt
    → verdict config now wt ≡ some timed_out
unfolding verdict
verdict-late config now wt h = ground arith

verdict-mute :
    (config : MonitorConfig) (now : ℕ) (wt : WatchedTask)
    → ran now wt ≤ wt.timeout
    → config.stall_threshold < silent now wt
    → verdict config now wt ≡ some stalled
unfolding verdict
verdict-mute config now wt h k = ground arith

verdict-well :
    (config : MonitorConfig) (now : ℕ) (wt : WatchedTask)
    → ran now wt ≤ wt.timeout
    → silent now wt ≤ config.stall_threshold
    → verdict config now wt ≡ none
unfolding verdict
verdict-well config now wt h k = ground arith

-- Where no task is watched twice, a check fires at most one event for each task: a timeout for one that
-- has run longer than its limit, a stall for one that is silent longer than the threshold and has not
-- timed out, and none for others. It stops watching exactly the tasks that timed out.
pub check_tasks-Checked :
    (m : TaskMonitor) (now : ℕ)
    → IsMap m.watched
    → Checked m now (check_tasks m now).0 (check_tasks m now).1
unfolding check_tasks
check_tasks-Checked m now h =
    let after = outcome m.config now m.watched h in
    record {
      once = checks-IsMap m.config now m.watched h;
      late = λ k wt e p. after k (some wt) (some timed_out) e (verdict-late m.config now wt p);
      mute = λ k wt e p q. after k (some wt) (some stalled) e (verdict-mute m.config now wt p q);
      well = λ k wt e p q. after k (some wt) none e (verdict-well m.config now wt p q);
      unknown = λ k e. after k none none e refl;
      table = fire-IsMap (checks m.config now m.watched) m.watched h;
      setting = refl;
    }
