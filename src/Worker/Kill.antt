-- ===== src/Worker/Kill.antt =====
-- libdevcore/Worker.cpp: the life of the thread, up to its end in the destructor.
use firominer.Base.{◌≡◌, ◌≢◌, refl, Bool, true, false, arith}
use firominer.Worker.{WorkerState, starting, started, stopping, stopped, killing, Worker, Place}
use firominer.Worker.{no_thread, top, marking, working, restoring, waiting, ended, has_thread}
use firominer.Worker.{new_worker, start_working, trigger_stop_working, kill}
use firominer.Worker.Thread.{thread_step, thread_run}

kill_at :
    (p : Place) (s : WorkerState)
    → has_thread p ≡ true
    → p ≢ restoring starting
    → (thread_run 5 (kill (record { state = s; place = p }))).place ≡ ended
unfolding thread_run kill
kill_at no_thread s h k = ground arith
kill_at top s h k = refl
kill_at marking s h k = refl
kill_at working s h k = refl
kill_at waiting s h k = refl
kill_at ended s h k = refl
kill_at (restoring starting) s h k = absurd (k refl)
kill_at (restoring started) s h k = refl
kill_at (restoring stopping) s h k = refl
kill_at (restoring stopped) s h k = refl
kill_at (restoring killing) s h k = refl

-- What the owner and the thread do, in any order. No compare-and-exchange fails spuriously.
pub data Step : Worker → Worker → Type 0 where
  starts : (w : Worker) → Step w (start_working w)
  triggers_stop : (w : Worker) → Step w (trigger_stop_working w)
  kills : (w : Worker) → Step w (kill w)
  runs : (w : Worker) → Step w (thread_step false w)

pub data Reach : Worker → Type 0 where
  created : Reach new_worker
  next : {w w' : Worker} → Reach w → Step w w' → Reach w'

-- The states in which the thread can stand at a place.
abbrev before_loop : WorkerState → Bool
before_loop starting = true
before_loop killing = true
before_loop _ = false

abbrev in_loop : WorkerState → Bool
in_loop started = true
in_loop stopping = true
in_loop killing = true
in_loop _ = false

abbrev after_loop : WorkerState → Bool
after_loop stopped = true
after_loop starting = true
after_loop killing = true
after_loop _ = false

abbrev Allowed : Place → WorkerState → Type 0
Allowed no_thread s = s ≡ starting
Allowed top s = before_loop s ≡ true
Allowed marking s = before_loop s ≡ true
Allowed working s = in_loop s ≡ true
Allowed (restoring ex) s = (in_loop ex ≡ true) × (after_loop s ≡ true)
Allowed waiting s = after_loop s ≡ true
Allowed ended s = Unit

starts_at :
    (p : Place) (s : WorkerState)
    → Allowed p s
    → let w = start_working (record { state = s; place = p }) in Allowed w.place w.state
unfolding start_working
starts_at no_thread s h = ground arith
starts_at top s h = ground arith
starts_at marking s h = ground arith
starts_at working s h = ground arith
starts_at (restoring ex) s h = ground arith
starts_at waiting s h = ground arith
starts_at ended s h = tt

triggers_at :
    (p : Place) (s : WorkerState)
    → Allowed p s
    → let w = trigger_stop_working (record { state = s; place = p }) in Allowed w.place w.state
unfolding trigger_stop_working
triggers_at no_thread s h = h
triggers_at top s h = ground arith
triggers_at marking s h = ground arith
triggers_at working s h = ground arith
triggers_at (restoring ex) s h = ground arith
triggers_at waiting s h = ground arith
triggers_at ended s h = tt

kills_at :
    (p : Place) (s : WorkerState)
    → Allowed p s
    → let w = kill (record { state = s; place = p }) in Allowed w.place w.state
unfolding kill
kills_at no_thread s h = h
kills_at top s h = refl
kills_at marking s h = refl
kills_at working s h = refl
kills_at (restoring ex) s h = (h.0, refl)
kills_at waiting s h = refl
kills_at ended s h = tt

runs_at :
    (p : Place) (s : WorkerState)
    → Allowed p s
    → let w = thread_step false (record { state = s; place = p }) in Allowed w.place w.state
unfolding thread_step
runs_at no_thread s h = h
runs_at top s h = ground arith
runs_at marking s h = ground arith
runs_at working s h = ground arith
runs_at (restoring ex) s h = ground arith
runs_at waiting s h = ground arith
runs_at ended s h = tt

Step-Allowed : {w w' : Worker} → Step w w' → Allowed w.place w.state → Allowed w'.place w'.state
Step-Allowed (starts w) h = starts_at w.place w.state h
Step-Allowed (triggers_stop w) h = triggers_at w.place w.state h
Step-Allowed (kills w) h = kills_at w.place w.state h
Step-Allowed (runs w) h = runs_at w.place w.state h

Reach-Allowed : {w : Worker} → Reach w → Allowed w.place w.state
Reach-Allowed created = refl
Reach-Allowed (next r st) = Step-Allowed st (Reach-Allowed r)

not_restoring_starting : (p : Place) (s : WorkerState) → Allowed p s → p ≢ restoring starting
not_restoring_starting (restoring starting) s h = ground arith
not_restoring_starting _ s h = ground arith

-- From every worker that the owner's calls and the thread's steps reach in any order, with no
-- compare-and-exchange failing spuriously: if the thread exists, then five of its steps after the
-- destructor's exchange of the state, the thread has ended, so that `join` returns. The return of
-- `workLoop` is one such step.
pub kill-ends :
    {w : Worker} → Reach w → has_thread w.place ≡ true → (thread_run 5 (kill w)).place ≡ ended
kill-ends {w} r h =
    kill_at w.place w.state h (not_restoring_starting w.place w.state (Reach-Allowed r))

-- While the thread runs `workLoop`, a stop request that finds the state `Started` is noticed: the
-- reached states are `Started`, `Stopping` and `Killing` only, and the request leaves none but the
-- last two.
pub trigger_stop_working-working :
    {w : Worker}
    → Reach w
    → w.place ≡ working
    → let s = (trigger_stop_working w).state in (s ≢ starting) × (s ≢ started) × (s ≢ stopped)
unfolding trigger_stop_working
trigger_stop_working-working {w} r h = at_working w.place w.state h (Reach-Allowed r)
  where
    at_working :
        (p : Place) (s : WorkerState)
        → p ≡ working
        → Allowed p s
        → let s' = (trigger_stop_working (record { state = s; place = p })).state in
          (s' ≢ starting) × (s' ≢ started) × (s' ≢ stopped)
    at_working working s e a = ground arith
    at_working _ s e a = ground arith
