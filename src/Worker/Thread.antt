-- ===== src/Worker/Thread.antt =====
-- libdevcore/Worker.cpp: the body of the thread that `startWorking` creates.
use firominer.Base.{ℕ, zero, suc, Bool, false, ◌||◌, if◌then◌else◌}
use firominer.Worker.{WorkerState, starting, started, stopped, killing, Worker, eq_state, Place}
use firominer.Worker.{no_thread, top, marking, working, restoring, waiting, ended, compare_exchange}

-- The thread at a place, with the shared state. A step at `working` is the return of `workLoop`.
abbrev thread_at : Bool → Place → WorkerState → Worker
thread_at spurious no_thread s = record { state = s; place = no_thread }
thread_at spurious top s = record {
  state = s;
  place = if eq_state s killing then ended else marking;
}
thread_at spurious marking s = record {
  state = compare_exchange spurious starting started s;
  place = working;
}
thread_at spurious working s = record { state = stopped; place = restoring s }
thread_at spurious (restoring ex) s = record {
  state = if eq_state ex killing || eq_state ex starting then ex else s;
  place = waiting;
}
thread_at spurious waiting s = record {
  state = s;
  place = if eq_state s stopped then waiting else top;
}
thread_at spurious ended s = record { state = s; place = ended }

-- One atomic access of the thread.
unfoldable pub thread_step : Bool → Worker → Worker
thread_step spurious w = thread_at spurious w.place w.state

-- Steps of the thread alone, none of which fails spuriously.
unfoldable pub thread_run : ℕ → Worker → Worker
unfolding thread_step
thread_run zero w = w
thread_run (suc n) w = thread_run n (thread_step false w)
