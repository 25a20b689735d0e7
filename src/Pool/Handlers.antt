-- ===== src/Pool/Handlers.antt =====
-- libpoolprotocols/PoolManager.cpp: what the manager hands to its client and to the farm as
-- handlers. `g_io_service.post` of `rotateConnect` is counted.
use firominer.Base.{
  ℕ, suc, ◌/◌, ◌%◌, ◌^◌, Bool, true, false, not, ◌&&◌, Option, none, some, List, ltb,
}
use firominer.Base.{◌==◌, if◌then◌else◌, str_eq, String}
use firominer.Miner.{WorkPackage, is_work, get_boundary}
use firominer.Farm.{Farm, Build, DeviceSubscriptionType}
use firominer.Farm.Work.{set_work_farm}
use firominer.Farm.Solutions.{is_accepted, is_rejected}
use firominer.Farm.Proof.{Solution, account_solution}
use firominer.Pool.{Uri, UriHostNameType, dns, basic, Client, Manager, Outcome, done, threw, fault}
use firominer.Pool.{is_connected, SelectedHost, host_endpoint, out_of_bounds, no_value, submits}
use firominer.Pool.{increment, request}
use mathlib.Core.Option
use firominer.Farm

abbrev pub is_named : UriHostNameType → Bool
is_named dns = true
is_named basic = true
is_named _ = false

abbrev pub shown_host : Uri → String → SelectedHost → SelectedHost
shown_host u endpoint s =
    if is_named u.host_name_type && not (str_eq endpoint "")
    then host_endpoint u.host endpoint
    else s

-- The end of the handler of a connection, on the farm.
unfoldable pub wake_farm : Build → List DeviceSubscriptionType → Farm → Farm
wake_farm b devices f =
    if not f.is_mining then Farm.start b devices f else if f.is_paused then Farm.resume f else f

-- `onConnected`, for the connection of the client and the address that it shows.
unfoldable pub connected_to :
    (ℕ → ℕ) → Build → List DeviceSubscriptionType → Manager → Uri → String → Manager
unfolding wake_farm
connected_to random b devices m u endpoint = record m {
  selected_host = shown_host u endpoint m.selected_host;
  current_wp = record m.current_wp { job = ""; header = 0 };
  failover_timer =
      if not (m.active_connection_idx == 0) && ltb 0 m.settings.pool_failover_timeout
      then some m.settings.pool_failover_timeout
      else none;
  submithr_timer =
      if m.settings.report_hashrate then some m.settings.hash_rate_interval else m.submithr_timer;
  async_pending = false;
  farm =
      wake_farm b devices
        (if m.farm.settings.ergodicity == 1 then Farm.shuffle random m.farm else m.farm);
}

abbrev pub connected_through :
    (ℕ → ℕ) → Build → List DeviceSubscriptionType → Manager → Client → String → Option Uri → Outcome
connected_through random b devices m c endpoint none = fault
connected_through random b devices m c endpoint (some u) = done (
    connected_to random b devices (record m { client = some (record c { connected = true }) }) u
      endpoint)

abbrev pub connected_client_to :
    (ℕ → ℕ) → Build → List DeviceSubscriptionType → Manager → String → Option Client → Outcome
connected_client_to random b devices m endpoint none = fault
connected_client_to random b devices m endpoint (some c) =
    connected_through random b devices m c endpoint c.connection

unfoldable pub on_connected :
    (ℕ → ℕ) → Build → List DeviceSubscriptionType → Manager → String → Outcome
unfolding connected_to
on_connected random b devices m endpoint = connected_client_to random b devices m endpoint m.client

-- `onDisconnected`, from where the client is without its connection.
unfoldable pub disconnected : Manager → Client → Manager
disconnected m c =
    let m1 = record m {
      client = some (record c { connected = false; connection = none });
      current_wp = record m.current_wp { header = 0 };
      failover_timer = none;
      submithr_timer = none;
    } in
    if m.stopping
    then record m1 { farm = if m.farm.is_mining then Farm.stop m.farm else m.farm; running = false }
    else record m1 { async_pending = true; farm = Farm.pause m.farm; posted = suc m.posted }

abbrev pub disconnected_client : Manager → Option Client → Outcome
disconnected_client m none = fault
disconnected_client m (some c) = done (disconnected m c)

unfoldable pub on_disconnected : Manager → Outcome
unfolding disconnected
on_disconnected m = disconnected_client m m.client

abbrev pub epoch_length : ℕ
epoch_length = 1300

-- The epoch of a package that comes without one: `static_cast<uint32_t>` of a quotient.
abbrev pub epoch_or : Option ℕ → ℕ → Option ℕ
epoch_or none block = some (block / epoch_length % 2 ^ 32)
epoch_or (some e) block = some e

abbrev pub same_epoch : Option ℕ → Option ℕ → Option Bool
same_epoch none _ = none
same_epoch (some a) none = none
same_epoch (some a) (some b) = some (a == b)

-- Whether the epoch is new; `none` is the exception of `value()`.
unfoldable pub new_epoch : WorkPackage → WorkPackage → Option Bool
new_epoch current wp =
    if is_work current then Option.map not (same_epoch current.epoch wp.epoch) else some true

unfoldable pub new_diff : WorkPackage → WorkPackage → Bool
unfolding get_boundary
new_diff current wp =
    if is_work current then not (get_boundary current == get_boundary wp) else true

-- The package is saved and goes to the farm.
abbrev pub save_work : (ℕ → ℕ) → Manager → WorkPackage → Option Bool → Outcome
save_work random m wp none = threw no_value m
save_work random m wp (some changed) = done (record m {
  current_wp = wp;
  epoch_changes = if changed then increment m.epoch_changes else m.epoch_changes;
  farm = set_work_farm random m.farm wp;
})

-- A package with its block, which is there.
abbrev pub receive_work : (ℕ → ℕ) → Manager → WorkPackage → Option ℕ → Outcome
receive_work random m wp none = done m
receive_work random m wp (some block) =
    let wp1 = record wp { epoch = epoch_or wp.epoch block } in
    save_work random m wp1 (new_epoch m.current_wp wp1)

-- `onWorkReceived`.
unfoldable pub on_work_received : (ℕ → ℕ) → Manager → WorkPackage → Outcome
unfolding new_epoch
on_work_received random m wp = if is_work wp then receive_work random m wp wp.block else done m

abbrev pub accounted : Manager → Farm × Bool → Outcome
accounted m (f, false) = done (record m { farm = f })
accounted m (f, true) = threw out_of_bounds (record m { farm = f })

-- `onSolutionAccepted` and `onSolutionRejected`, at a time.
unfoldable pub on_solution_accepted : Manager → ℕ → ℕ → Outcome
unfolding account_solution
on_solution_accepted m midx now = accounted m (account_solution m.farm midx is_accepted now)

unfoldable pub on_solution_rejected : Manager → ℕ → ℕ → Outcome
unfolding account_solution
on_solution_rejected m midx now = accounted m (account_solution m.farm midx is_rejected now)

-- The farm's `onSolutionFound`: a solution goes to the pool if the client is connected, and is
-- dropped otherwise.
unfoldable pub on_solution_found : Manager → Solution → Manager
on_solution_found m s = if is_connected m then request (submits s) m else m

-- The farm's `onMinerRestart`.
unfoldable pub on_miner_restart : Build → List DeviceSubscriptionType → Manager → Manager
on_miner_restart b devices m = record m {
  farm = Farm.start b devices (if m.farm.is_mining then Farm.stop m.farm else m.farm);
}
