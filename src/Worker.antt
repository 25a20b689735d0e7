-- ===== src/Worker.antt =====
-- libdevcore/Worker.h and Worker.cpp: a thread that runs `workLoop` over and over, and the four
-- calls of its owner. The owner's calls hold the lock `x_work`; the thread does not take it, so
-- what the thread does is a step of its own between the owner's atomic accesses.
pub mod Thread
pub mod Kill
use firominer.Base.{Bool, true, false, if◌then◌else◌}

pub data WorkerState : Type 0 where
  starting started stopping stopped killing : WorkerState

-- Where the thread stands. `restoring ex` is between the two exchanges after `workLoop`, of which
-- the first gave `ex`.
pub data Place : Type 0 where
  no_thread top marking working waiting ended : Place
  restoring : WorkerState → Place

pub record Worker : Type 0 where
  pub state : WorkerState
  pub place : Place

abbrev pub eq_state : WorkerState → WorkerState → Bool
eq_state starting starting = true
eq_state started started = true
eq_state stopping stopping = true
eq_state stopped stopped = true
eq_state killing killing = true
eq_state _ _ = false

-- The constructor: `m_work` is null, and `m_state` begins as `Starting`.
abbrev pub new_worker : Worker
new_worker = record { state = starting; place = no_thread }

-- `m_state.compare_exchange_weak(expected, desired)`. It may fail spuriously.
abbrev pub compare_exchange : Bool → WorkerState → WorkerState → WorkerState → WorkerState
compare_exchange spurious expected desired s =
    if spurious then s else if eq_state s expected then desired else s

-- Whether `m_work` is set.
abbrev pub has_thread : Place → Bool
has_thread no_thread = false
has_thread _ = true

-- `startWorking` up to its wait for the state to leave `Starting`.
unfoldable pub start_working : Worker → Worker
start_working w =
    if has_thread w.place
    then record w { state = compare_exchange false stopped starting w.state }
    else record { state = starting; place = top }

-- `triggerStopWorking`, and `stopWorking` up to its wait for `Stopped`.
unfoldable pub trigger_stop_working : Worker → Worker
trigger_stop_working w =
    if has_thread w.place
    then record w { state = compare_exchange false started stopping w.state }
    else w

-- The destructor up to its `join`.
unfoldable pub kill : Worker → Worker
kill w = if has_thread w.place then record w { state = killing } else w

unfoldable pub should_stop : Worker → Bool
should_stop w = if eq_state w.state started then false else true
