-- ===== src/Pool/Lifecycle.antt =====
-- libpoolprotocols/PoolManager.cpp: `start`, `stop` and the two timers.
use firominer.Base.{suc, Bool, true, not, ◌&&◌, none, some, ◌==◌, if◌then◌else◌}
use firominer.Pool.{Manager, Outcome, done, submits_hashrate, increment, request, is_connected}
use firominer.Pool.{disconnect_client}
use firominer.Farm

unfoldable pub start : Manager → Manager
start m = record m {
  running = true;
  async_pending = true;
  connection_switches = increment m.connection_switches;
  posted = suc m.posted;
}

-- The branch of `stop` for a manager whose client is not connected.
unfoldable pub stop_unconnected : Manager → Manager
stop_unconnected m = record m {
  failover_timer = none;
  submithr_timer = none;
  farm = if m.farm.is_mining then Farm.stop m.farm else m.farm;
}

-- `stop`, up to its wait for `m_running` to become false where it has asked the client to
-- disconnect.
unfoldable pub stop : Manager → Outcome
unfolding stop_unconnected
stop m =
    if m.running
    then (let m1 = record m { async_pending = true; stopping = true } in
        if is_connected m then disconnect_client m1 m.client else done (stop_unconnected m1))
    else done m

-- The end of `stop`, after its wait.
unfoldable pub finish_stop : Manager → Manager
finish_stop m = if m.running then m else record m { client = none }

-- `failovertimer_elapsed`, with whether the timer was cancelled.
unfoldable pub failover_timer_elapsed : Bool → Manager → Outcome
failover_timer_elapsed cancelled m =
    if cancelled
    then done m
    else if m.running && not (m.active_connection_idx == 0)
    then disconnect_client
        (record m {
          failover_timer = none;
          active_connection_idx = 0;
          connection_attempt = 0;
          connection_switches = increment m.connection_switches;
        })
        m.client
    else done (record m { failover_timer = none })

-- `submithrtimer_elapsed`, with whether the timer was cancelled.
unfoldable pub submithr_timer_elapsed : Bool → Manager → Manager
submithr_timer_elapsed cancelled m =
    if cancelled
    then m
    else if m.running
    then (let m1 = if is_connected m then request submits_hashrate m else m in
        record m1 { submithr_timer = some m.settings.hash_rate_interval })
    else record m { submithr_timer = none }
