-- ===== src/Pool/Events.antt =====
-- libpoolprotocols/PoolManager.cpp: all that can happen to a manager, one event at a time.
use firominer.Base.{ℕ, zero, suc, true, ◌≡◌, Bool, Option, none, some, List, String, set, get_elem?}
use firominer.Miner.{WorkPackage}
use firominer.Farm.{Build, DeviceSubscriptionType}
use firominer.Farm.Calls.{call}
use firominer.Farm.Proof.{Solution}
use firominer.Pool.{Uri, Manager, Outcome, done, threw, PoolError, connections, with_connections}
use firominer.Pool.Connections.{add_connection, remove_connection, set_active_connection}
use firominer.Pool.Connections.{set_active_connection_by_name}
use firominer.Pool.Rotate.{rotate_connect}
use firominer.Pool.Handlers.{on_connected, on_disconnected, on_work_received, on_solution_accepted}
use firominer.Pool.Handlers.{on_solution_rejected, on_solution_found, on_miner_restart}
use firominer.Pool.Lifecycle.{
  start, stop, finish_stop, failover_timer_elapsed, submithr_timer_elapsed,
}
use firominer.Farm
use firominer.Farm.Calls

-- `Farm` events are the calls that others than the manager make on the farm. `marks` is a client
-- that finds a connection unrecoverable.
pub data Event : Type 0 where
  starts stops stop_ends : Event
  adds : Uri → Event
  removes activates : ℕ → Event
  activates_by_name : String → Event
  rotates disconnects_client restarts_miners : Event
  connects_client : String → Event
  receives_work : WorkPackage → Event
  accepted rejected : ℕ → ℕ → Event
  finds : Solution → Event
  failover_elapses submithr_elapses : Bool → Event
  marks : ℕ → Event
  calls_farm : Farm.Calls.Call → Event

-- What the process around the manager fixes: the random device, the build, the devices, and
-- `boost::iequals`.
pub record Setting : Type 0 where
  pub random : ℕ → ℕ
  pub build : Build
  pub devices : List DeviceSubscriptionType
  pub iequals : String → String → Bool

-- A posted call of `rotateConnect` runs.
abbrev pub take_posted : Manager → ℕ → Outcome
take_posted m zero = done m
take_posted m (suc n) = rotate_connect (record m { posted = n })

abbrev pub mark_at : Manager → ℕ → Option Uri → Manager
mark_at m idx none = m
mark_at m idx (some u) =
    with_connections m (set (connections m) idx (record u { unrecoverable = true }))

unfoldable pub step : Setting → Manager → Event → Outcome
step e m starts = done (start m)
step e m stops = stop m
step e m stop_ends = done (finish_stop m)
step e m (adds u) = done (add_connection m u)
step e m (removes idx) = remove_connection m idx
step e m (activates idx) = set_active_connection m idx
step e m (activates_by_name text) = set_active_connection_by_name e.iequals m text
step e m rotates = take_posted m m.posted
step e m disconnects_client = on_disconnected m
step e m restarts_miners = done (on_miner_restart e.build e.devices m)
step e m (connects_client endpoint) = on_connected e.random e.build e.devices m endpoint
step e m (receives_work wp) = on_work_received e.random m wp
step e m (accepted midx now) = on_solution_accepted m midx now
step e m (rejected midx now) = on_solution_rejected m midx now
step e m (finds s) = done (on_solution_found m s)
step e m (failover_elapses cancelled) = failover_timer_elapsed cancelled m
step e m (submithr_elapses cancelled) = done (submithr_timer_elapsed cancelled m)
step e m (marks idx) = done (mark_at m idx (get_elem? (connections m) idx))
step e m (calls_farm c) = done (record m { farm = call e.random m.farm c })

-- An exception ends the event, and the manager is as the event has left it.
pub data Reach (e : Setting) (m0 : Manager) : Manager → Type 0 where
  here : Reach e m0 m0
  returns : {m m' : Manager} (ev : Event) → Reach e m0 m → step e m ev ≡ done m' → Reach e m0 m'
  throws :
      {m m' : Manager} {err : PoolError} (ev : Event)
      → Reach e m0 m
      → step e m ev ≡ threw err m'
      → Reach e m0 m'
