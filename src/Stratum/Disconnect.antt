-- ===== src/Stratum/Disconnect.antt =====
-- libpoolprotocols/stratum/EthStratumClient.cpp: the end of a connection.
use firominer.Base.{
  ℕ, ◌+◌, ◌-◌, Bool, true, false, ◌&&◌, not, Option, none, some, ltb, if◌then◌else◌,
}
use firominer.Stratum.{Stratum, StratumUri, opened, post, start_connects, shuts_down}
use firominer.Stratum.{disconnect_finalizes}
use firominer.Stratum.Pleas.{clear_response_pleas, enqueue_response_plea}

-- The minutes of a session.
abbrev pub session_duration : ℕ → Option ℕ → ℕ
session_duration minute none = 0
session_duration minute (some start) = minute - start

abbrev pub closed : Option Bool → Option Bool
closed none = none
closed (some o) = some false

-- The part of `disconnect_finalize` that clears: sockets, session and flags.
unfoldable pub release_connection : ℕ → Stratum → Stratum
release_connection minute s = record s {
  securesocket = closed s.securesocket;
  socket = none;
  conn = record (s.conn) {
    total_duration = s.conn.total_duration + session_duration minute s.session;
  };
  session = none;
  authpending = false;
  disconnecting = false;
  tx_pending = false;
}

-- The rest of `disconnect_finalize`, after the autodetection.
unfoldable pub go_to_sleep : ℕ → Stratum → Stratum
unfolding clear_response_pleas
go_to_sleep now s =
    let s1 = clear_response_pleas now s in
    record s1 {
      solution_submitted_max_id = 0;
      timer_runs = false;
      disconnections = s.disconnections + 1;
    }

abbrev pub with_mode : ℕ → Stratum → Stratum
with_mode mode s = record s { conn = record (s.conn) { stratum_mode = mode } }

abbrev pub mark_unrecoverable : Stratum → Stratum
mark_unrecoverable s = record s { conn = record (s.conn) { unrecoverable = true } }

-- Whether the connection responds and its stratum mode is still to be found.
abbrev pub is_detecting : StratumUri → Bool
is_detecting c = not c.unrecoverable && (not c.stratum_mode_confirmed && c.responds)

-- `disconnect_finalize`, with the time in minutes and in milliseconds.
unfoldable pub disconnect_finalize : ℕ → ℕ → Stratum → Stratum
unfolding release_connection go_to_sleep
disconnect_finalize minute now s =
    let s1 = release_connection minute s in
    if is_detecting s1.conn
    then if ltb 0 s1.conn.stratum_mode
      then post start_connects (with_mode (s1.conn.stratum_mode - 1) s1)
      else go_to_sleep now (mark_unrecoverable s1)
    else go_to_sleep now s1

-- `disconnect`. `throws` is whether the shutdown of a plain socket throws.
unfoldable pub disconnect : Bool → ℕ → ℕ → Stratum → Stratum
unfolding disconnect_finalize enqueue_response_plea
disconnect throws minute now s =
    let s1 = record s { disconnecting = true; connected = false } in
    let shut = if throws then s1 else record s1 { socket = some false } in
    if s.disconnecting
    then s
    else if opened s1.socket
    then if s1.conn.is_secure
      then enqueue_response_plea now (post shuts_down s1)
      else disconnect_finalize minute now shut
    else disconnect_finalize minute now s1

-- `onSSLShutdownCompleted`.
unfoldable pub on_ssl_shutdown_completed : ℕ → Stratum → Stratum
unfolding clear_response_pleas
on_ssl_shutdown_completed now s = post disconnect_finalizes (clear_response_pleas now s)
