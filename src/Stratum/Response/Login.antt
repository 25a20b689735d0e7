-- ===== src/Stratum/Response/Login.antt =====
-- libpoolprotocols/stratum/EthStratumClient.cpp: the response to the first request, in
-- `processResponse`, and the start of a session.
use firominer.Stratum.Response.{LoginResult, Message, new_session, Client, send, call, on_stratum}
use firominer.Stratum.Response.{post_disconnect, give_up, protocol, mode_of, is_confirmed}
use firominer.Stratum.Response.{mining_subscribe, extranonce_subscribe, mining_authorize, get_work}
use firominer.Stratum.Response.{null_request, on_connected}
use firominer.Base.{ℕ, Bool, true, ◌&&◌, not, List, [], ◌∷◌, Option, none, some, ltb, ◌==◌}
use firominer.Base.{if◌then◌else◌}
use firominer.Stratum.{Stratum}
use firominer.Stratum.Pleas.{enqueue_response_plea, dequeue_response_plea}
use firominer.Stratum.Extranonce.{StratumMode, stratum, ethproxy, ethereumstratum, ethereumstratum2}
use firominer.Stratum.Extranonce.{process_extranonce}

-- `SetStratumMode` with a mode that is confirmed.
abbrev pub confirm_mode : ℕ → Stratum → Stratum
confirm_mode mode s = record s {
  conn = record (s.conn) { stratum_mode = mode; stratum_mode_confirmed = true };
}

-- `startSession`, at a minute.
unfoldable pub start_session : ℕ → Client → Client
start_session minute c =
    call on_connected
      (record c { stratum = record (c.stratum) { session = some minute }; session = new_session })

-- The mode is confirmed and its session starts.
abbrev pub log_in : ℕ → ℕ → Client → Client
log_in mode minute c = start_session minute (on_stratum (confirm_mode mode) c)

abbrev pub subscribe : Client → Client
subscribe c = record c { session = record (c.session) { subscribed = true } }

-- The authorization is pending, and its answer is awaited.
abbrev pub await_authorization : ℕ → Client → Client
await_authorization now c =
    on_stratum (λ s. enqueue_response_plea now (record s { authpending = true })) c

-- A login that fails: the connection is given up, unless other modes are still to be tried.
unfoldable pub refuse_login : Client → Client
refuse_login c = if is_confirmed c then give_up c else post_disconnect c

abbrev pub accepts_hello : LoginResult → Bool
accepts_hello r =
    r.is_object
    && (r.proto_is_2_0_0
        && (r.has_encoding && (r.has_resume && (r.has_timeout && (r.has_maxerrors && r.has_node)))))

abbrev pub accepts_subscription : Message → Bool
accepts_subscription m =
    m.result.is_array
    && (m.login_result.first_is_array
        && (m.login_result.first_size == 3 && m.login_result.first_names_1_0_0))

-- The extranonce that a pool of plain stratum gives with its result, if it does.
abbrev pub given_extranonce : Message → List ℕ
given_extranonce m =
    if m.has_result && (m.result.is_array && ltb 1 m.result.size) then m.result.as_string 1 else []

-- `processExtranonce` on the client, where there is a session.
abbrev pub take_extranonce : List ℕ → Client → Client
take_extranonce enonce c = record c {
  session = record (c.session) { nonce = (process_extranonce enonce c.session.nonce).1 };
}

-- The login with an extranonce: an invalid one ends the connection before the request is sent.
unfoldable pub authorize_with : List ℕ → Client → Client
unfolding process_extranonce
authorize_with [] c = send mining_authorize c
authorize_with (x ∷ xs) c =
    if (process_extranonce (x ∷ xs) c.session.nonce).0
    then send mining_authorize (take_extranonce (x ∷ xs) c)
    else post_disconnect c

-- The response to the first request, by the protocol of the connection.
unfoldable pub login_by : Option StratumMode → Message → ℕ → ℕ → Client → Client
unfolding start_session refuse_login authorize_with enqueue_response_plea
login_by (some ethereumstratum2) m minute now c =
    if accepts_hello m.login_result
    then send mining_subscribe (on_stratum (enqueue_response_plea now) (log_in 3 minute c))
    else refuse_login c
login_by (some ethereumstratum) m minute now c =
    let logged = send extranonce_subscribe (subscribe (log_in 2 minute c)) in
    if accepts_subscription m
    then send mining_authorize (await_authorization now logged)
    else refuse_login c
login_by (some ethproxy) m minute now c =
    let logged = subscribe (log_in 1 minute c) in
    if m.error_is_empty
    then send get_work (record logged { session = record (logged.session) { authorized = true } })
    else refuse_login c
login_by (some stratum) m minute now c =
    let logged = await_authorization now (subscribe (log_in 0 minute c)) in
    if m.error_is_empty then authorize_with (given_extranonce m) logged else refuse_login c
login_by none m minute now c = send null_request c

-- The response with id 1. An error while the mode is still to be found ends the attempt.
unfoldable pub on_login_response : Message → ℕ → ℕ → Client → Client
unfolding login_by dequeue_response_plea
on_login_response m minute now c =
    let c1 = on_stratum (λ s. (dequeue_response_plea now s).1) c in
    if not m.error_is_empty && not (is_confirmed c1)
    then post_disconnect c1
    else login_by (protocol (mode_of c1)) m minute now c1
