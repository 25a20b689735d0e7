-- ===== src/Pool.antt =====
-- libpoolprotocols/PoolManager.h and PoolManager.cpp, with the parts of PoolClient.h and PoolURI.h
-- that it uses. The manager owns the client and drives the farm. A handler, a timer or a posted
-- task runs on the strand `m_io_strand` to its end, and is one step; so is a call from outside.
pub mod Connections
pub mod Rotate
pub mod Handlers
pub mod Lifecycle
pub mod Events
pub mod Active
pub mod Retry
pub mod Rounds
pub mod Turns
pub mod Work
pub mod Sound
pub mod Shutdown
pub mod Received
use firominer.Base.{ℕ, ◌+◌, ◌%◌, ◌^◌, Bool, true, false, Option, none, some, List, [], ◌∷◌, String}
use firominer.Miner.{WorkPackage, no_work}
use firominer.Farm.{Farm}
use firominer.Farm.Proof.{Solution}

pub data ProtocolFamily : Type 0 where
  getwork stratum simulation : ProtocolFamily

pub data UriHostNameType : Type 0 where
  unknown basic dns ipv4 ipv6 : UriHostNameType

-- The fields of an URI that the manager reads or writes.
pub record Uri : Type 0 where
  pub str : String
  pub host : String
  pub port : ℕ
  pub family : ProtocolFamily
  pub host_name_type : UriHostNameType
  pub unrecoverable : Bool
  pub responds : Bool

pub record PoolSettings : Type 0 where
  pub connections : List Uri
  pub pool_failover_timeout : ℕ
  pub report_hashrate : Bool
  pub hash_rate_interval : ℕ
  pub connection_max_retries : ℕ

-- `m_conn` is the connection as it was when `setConnection` took it, or null.
pub record Client : Type 0 where
  pub family : ProtocolFamily
  pub connected : Bool
  pub connection : Option Uri

-- `m_selectedHost`, which is only shown: empty, a host with its port, or a host with the address
-- that it was resolved to.
pub data SelectedHost : Type 0 where
  nowhere : SelectedHost
  host_port : String → ℕ → SelectedHost
  host_endpoint : String → String → SelectedHost

-- What the manager asks of its client and of the process.
pub data Request : Type 0 where
  connects disconnects : Request
  submits : Solution → Request
  submits_hashrate : Request
  raises_sigterm : Request

-- A timer holds the time it was set to, if it is running; `posted` counts the calls of
-- `rotateConnect` that wait on the strand. The latest request stands first.
pub record Manager : Type 0 where
  pub settings : PoolSettings
  pub running : Bool
  pub stopping : Bool
  pub async_pending : Bool
  pub connection_attempt : ℕ
  pub selected_host : SelectedHost
  pub connection_switches : ℕ
  pub active_connection_idx : ℕ
  pub current_wp : WorkPackage
  pub failover_timer : Option ℕ
  pub submithr_timer : Option ℕ
  pub client : Option Client
  pub epoch_changes : ℕ
  pub posted : ℕ
  pub requests : List Request
  pub farm : Farm

pub data PoolError : Type 0 where
  outstanding_operations out_of_bounds active_connection not_found no_value : PoolError

-- A call comes to an end, throws with the manager as it is then, or reads through a null pointer.
pub data Outcome : Type 0 where
  done : Manager → Outcome
  threw : PoolError → Manager → Outcome
  fault : Outcome

-- Whether a call returns normally.
abbrev pub succeeds : Outcome → Bool
succeeds (done m) = true
succeeds _ = false

-- The manager after a call, which is as before if the call has no end.
abbrev pub after : Manager → Outcome → Manager
after m (done m') = m'
after m (threw err m') = m'
after m fault = m

abbrev pub connections : Manager → List Uri
connections m = m.settings.connections

abbrev pub with_connections : Manager → List Uri → Manager
with_connections m us = record m { settings = record m.settings { connections = us } }

-- `fetch_add(1)` and `++` on an `unsigned`.
abbrev pub increment : ℕ → ℕ
increment n = (n + 1) % 2 ^ 32

abbrev pub request : Request → Manager → Manager
request r m = record m { requests = r ∷ m.requests }

abbrev pub connected_client : Option Client → Bool
connected_client none = false
connected_client (some c) = c.connected

-- `p_client && p_client->isConnected()`.
abbrev pub is_connected : Manager → Bool
is_connected m = connected_client m.client

-- `p_client->disconnect()`: each client clears its flag at once. Its handler is a step of its own.
abbrev pub disconnect_client : Manager → Option Client → Outcome
disconnect_client m none = fault
disconnect_client m (some c) =
    done (request disconnects (record m { client = some (record c { connected = false }) }))

-- The constructor.
unfoldable pub new_manager : PoolSettings → Farm → Manager
new_manager settings farm = record {
  settings = settings;
  running = false;
  stopping = false;
  async_pending = false;
  connection_attempt = 0;
  selected_host = nowhere;
  connection_switches = 0;
  active_connection_idx = 0;
  current_wp = no_work;
  failover_timer = none;
  submithr_timer = none;
  client = none;
  epoch_changes = 0;
  posted = 0;
  requests = [];
  farm = farm;
}
