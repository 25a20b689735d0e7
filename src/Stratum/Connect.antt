-- ===== src/Stratum/Connect.antt =====
-- libpoolprotocols/stratum/EthStratumClient.cpp: from `connect` to the first request.
use firominer.Base.{
  ℕ, Bool, true, false, ◌&&◌, not, ◌||◌, List, [], ◌∷◌, ◌++◌, Option, none, some, ltb,
}
use firominer.Base.{◌==◌, if◌then◌else◌}
use firominer.Stratum.{Stratum, StratumUri, opened, post, start_connects, disconnects, resolves}
use firominer.Stratum.{connects}
use firominer.Stratum.Pleas.{clear_response_pleas, enqueue_response_plea}
use firominer.Stratum.Disconnect.{disconnect_finalize, mark_unrecoverable}

-- `init_socket`: the socket, which is the lowest layer of the secure one on a secure connection.
abbrev pub init_socket : Stratum → Stratum
init_socket s =
    if s.conn.is_secure
    then record s { securesocket = some false; socket = some false }
    else record s { socket = some false }

abbrev pub init_if_missing : Option Bool → Stratum → Stratum
init_if_missing none s = init_socket s
init_if_missing (some o) s = s

-- `connect`. `address` is the endpoint of a host that is an IP address already.
unfoldable pub connect : ℕ → Stratum → Stratum
connect address s =
    let s1 = init_if_missing s.socket (record s { timer_runs = true; authpending = false }) in
    let s2 = record s1 { endpoints = [] } in
    if s.connecting
    then s
    else if s2.conn.needs_resolver
    then post resolves s2
    else post start_connects (record s2 { endpoints = address ∷ [] })

-- `resolve_handler`; no endpoints are an error.
unfoldable pub resolve_handler : ℕ → ℕ → Option (List ℕ) → Stratum → Stratum
unfolding disconnect_finalize
resolve_handler minute now (some found) s =
    post start_connects (record s { endpoints = s.endpoints ++ found })
resolve_handler minute now none s = disconnect_finalize minute now (record s { connecting = false })

-- `start_connect`, on the endpoints that are left.
abbrev pub connect_to : ℕ → ℕ → List ℕ → Stratum → Stratum
connect_to minute now [] s = disconnect_finalize minute now (record s { connecting = false })
connect_to minute now (e ∷ es) s =
    let s1 = enqueue_response_plea now (clear_response_pleas now (init_if_missing s.socket s)) in
    post (connects e) (record s1 { connecting = true; solution_submitted_max_id = 0 })

unfoldable pub start_connect : ℕ → ℕ → Stratum → Stratum
unfolding disconnect_finalize enqueue_response_plea clear_response_pleas
start_connect minute now s =
    let s1 = record s { connecting = true } in
    if s.connecting then s else connect_to minute now s1.endpoints s1

-- `m_endpoints.pop()`; on no endpoints it is undefined, and nothing here.
abbrev pub pop_endpoint : List ℕ → Option (List ℕ)
pop_endpoint [] = none
pop_endpoint (e ∷ es) = some es

-- The stratum mode of the first request.
unfoldable pub choose_mode : StratumUri → StratumUri
choose_mode c =
    if ltb c.version 999
    then record c { stratum_mode = c.version; stratum_mode_confirmed = true }
    else if not c.stratum_mode_confirmed && c.stratum_mode == 999
    then record c { stratum_mode = 3; stratum_mode_confirmed = false }
    else c

-- An attempt that failed: the endpoint is discarded and the next one is to be tried.
abbrev pub next_endpoint : Option (List ℕ) → Stratum → Option Stratum
next_endpoint none s = none
next_endpoint (some es) s =
    some (post start_connects (record s { socket = some false; endpoints = es }))

-- An established connection: `handshake` is whether that of a secure one succeeds.
abbrev pub established : Bool → ℕ → Stratum → Stratum
established handshake now s =
    let s1 = record s { conn = record (s.conn) { responds = true }; connected = true } in
    let s2 = clear_response_pleas now s1 in
    if s.conn.is_secure && not handshake
    then post disconnects (mark_unrecoverable s1)
    else enqueue_response_plea now (record s2 { conn = choose_mode s2.conn })

-- `connect_handler`; nothing is an undefined `pop`. `error` is its argument. The socket is as
-- `async_connect` has left it.
unfoldable pub connect_handler : Bool → Bool → ℕ → Stratum → Option Stratum
unfolding choose_mode enqueue_response_plea clear_response_pleas
connect_handler error handshake now s =
    let s1 = record s { connecting = false } in
    if error || not (opened s1.socket)
    then next_endpoint (pop_endpoint s1.endpoints) s1
    else some (established handshake now s1)
