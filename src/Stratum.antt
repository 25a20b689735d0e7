-- ===== src/Stratum.antt =====
-- libpoolprotocols/stratum/EthStratumClient.h and EthStratumClient.cpp: the connection of the
-- stratum client: its flags, socket, endpoints, response pleas and timer. Times are in milliseconds
-- of the steady clock. An operation that the I/O service runs later is a value of `Task`, in the
-- order of posting; the socket, the resolver and the clock themselves are not modelled.
pub mod Pleas
pub mod Connect
pub mod Disconnect
pub mod Autodetect
pub mod Established
pub mod Detection
pub mod Timer
pub mod Extranonce
pub mod Nonce
pub mod Response
pub mod Receive
pub mod Send
pub mod Lines
use firominer.Base.{ℕ, Bool, true, false, ◌||◌, ◌&&◌, not, List, [], ◌∷◌, ◌++◌, Option, none, some}

-- What `m_conn` points to, as far as the client reads and changes it.
pub record StratumUri : Type 0 where
  pub stratum_mode : ℕ
  pub stratum_mode_confirmed : Bool
  pub unrecoverable : Bool
  pub responds : Bool
  pub total_duration : ℕ
  -- `SecLevel() != SecureLevel::NONE`.
  pub is_secure : Bool
  -- `Version()`: 999 is autodetection.
  pub version : ℕ
  -- `HostNameType()` is `Dns` or `Basic`.
  pub needs_resolver : Bool

-- Functions posted to the I/O service or given to it as handlers.
pub data Task : Type 0 where
  start_connects disconnects disconnect_finalizes login_fails : Task
  resolves shuts_down : Task
  connects : ℕ → Task

pub record Stratum : Type 0 where
  pub connecting : Bool
  pub disconnecting : Bool
  pub connected : Bool
  pub authpending : Bool
  pub tx_pending : Bool
  -- `m_socket`, with whether it is open.
  pub socket : Option Bool
  -- `m_securesocket`, with whether its lowest layer is open.
  pub securesocket : Option Bool
  pub endpoints : List ℕ
  pub conn : StratumUri
  -- The start of the session in minutes, where there is one.
  pub session : Option ℕ
  pub response_pleas_count : ℕ
  pub response_plea_older : ℕ
  pub response_plea_times : List ℕ
  pub solution_submitted_max_id : ℕ
  pub tasks : List Task
  -- Whether the timer waits for its interval, and not for ever.
  pub timer_runs : Bool
  -- The calls of `m_onDisconnected`.
  pub disconnections : ℕ

-- `isPendingState`.
unfoldable pub is_pending_state : Stratum → Bool
is_pending_state s = s.connecting || s.disconnecting

-- `isConnected`.
unfoldable pub is_connected : Stratum → Bool
unfolding is_pending_state
is_connected s = s.connected && not (is_pending_state s)

-- `m_io_service.post`, or the start of an operation whose handler runs later.
abbrev pub post : Task → Stratum → Stratum
post t s = record s { tasks = s.tasks ++ t ∷ [] }

-- The lowest layer of the secure socket is open.
abbrev pub opened : Option Bool → Bool
opened none = false
opened (some o) = o
