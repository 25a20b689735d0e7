-- ===== src/Stratum/Established.antt =====
-- libpoolprotocols/stratum/EthStratumClient.cpp: a connection from its attempt to its end.
use firominer.Base.{
  ap, ◌∙◌, ◌==◌, ℕ, ◌+◌, ◌≡◌, refl, true, false, List, ◌∷◌, arith, if◌then◌else◌, ltb,
}
use firominer.Base.{Option, none, some}
use firominer.Stratum.{Stratum, is_connected, is_pending_state}
use firominer.Stratum.Pleas.{enqueue_response_plea, clear_response_pleas}
use firominer.Stratum.Connect.{established, start_connect, connect_handler, choose_mode}
use firominer.Stratum.Disconnect.{
  disconnect_finalize, release_connection, go_to_sleep, is_detecting,
}

-- The client once the socket of its pending attempt is open and the handler runs, with no error.
unfoldable pub attempt : ℕ → ℕ → Stratum → Option Stratum
unfolding start_connect connect_handler
attempt minute now s =
    connect_handler false true now (record (start_connect minute now s) { socket = some true })

start_connect_lem :
    (minute now e : ℕ) (es : List ℕ) (s : Stratum)
    → s.connecting ≡ false
    → s.endpoints ≡ e ∷ es
    → let r = start_connect minute now s in
      (r.endpoints ≡ e ∷ es) × (r.disconnecting ≡ s.disconnecting) × (r.conn ≡ s.conn)
unfolding start_connect enqueue_response_plea clear_response_pleas
start_connect_lem minute now e es s idle has = ground arith

-- What a client is once its connection is established.
established_lem :
    (now : ℕ) (s : Stratum)
    → s.connecting ≡ false
    → s.disconnecting ≡ false
    → s.conn.stratum_mode_confirmed ≡ false
    → let s' = established true now s in
      (is_connected s' ≡ true)
      × (s'.endpoints ≡ s.endpoints)
      × (s'.response_pleas_count ≡ 1)
      × (s'.response_plea_older ≡ now)
      × (s'.conn.responds ≡ true)
      × (s'.conn.stratum_mode_confirmed ≡ ltb s.conn.version 999)
      × (s'.conn.stratum_mode ≡ (
          if ltb s.conn.version 999
          then s.conn.version
          else if s.conn.stratum_mode == 999
          then 3
          else s.conn.stratum_mode))
unfolding is_connected is_pending_state enqueue_response_plea clear_response_pleas choose_mode
established_lem now s idle still unconfirmed = ground arith

-- An attempt on an endpoint, of a client that is not yet connecting: with no error the client is
-- connected and waits for one response from then on. A scheme that names its stratum mode confirms
-- it; otherwise the autodetection begins with mode 3, and a mode that it has come to is kept.
pub attempt_lem :
    (minute now e : ℕ) (es : List ℕ) (s : Stratum)
    → s.connecting ≡ false
    → s.disconnecting ≡ false
    → s.endpoints ≡ e ∷ es
    → s.conn.stratum_mode_confirmed ≡ false
    → (s' : Stratum) × (attempt minute now s ≡ some s')
      × (is_connected s' ≡ true)
      × (s'.endpoints ≡ e ∷ es)
      × (s'.response_pleas_count ≡ 1)
      × (s'.response_plea_older ≡ now)
      × (s'.conn.responds ≡ true)
      × (s'.conn.stratum_mode_confirmed ≡ ltb s.conn.version 999)
      × (s'.conn.stratum_mode ≡ (
          if ltb s.conn.version 999
          then s.conn.version
          else if s.conn.stratum_mode == 999
          then 3
          else s.conn.stratum_mode))
unfolding attempt
attempt_lem minute now e es s idle still has unconfirmed =
    let r = start_connect minute now s in
    let (kept, same_flag, same_conn) = start_connect_lem minute now e es s idle has in
    let q =
      established_lem now (record r { connecting = false; socket = some true }) refl
        (same_flag ∙ still) (ap (λ c. c.stratum_mode_confirmed) same_conn ∙ unconfirmed) in
    (
      established true now (record r { connecting = false; socket = some true }),
      refl,
      q.0,
      q.1 ∙ kept,
      q.2,
      q.3,
      q.4,
      q.5 ∙ ap (λ c. ltb c.version 999) same_conn,
      q.6
          ∙ ap
              (λ c.
                if ltb c.version 999
                then c.version
                else if c.stratum_mode == 999
                then 3
                else c.stratum_mode)
              same_conn,
    )

-- What an attempt leaves as it was, and the flags after it.
pub attempt_kept :
    (minute now e : ℕ) (es : List ℕ) (s s' : Stratum)
    → s.connecting ≡ false
    → s.endpoints ≡ e ∷ es
    → attempt minute now s ≡ some s'
    → (s'.connecting ≡ false)
      × (s'.conn.unrecoverable ≡ s.conn.unrecoverable)
      × (s'.conn.version ≡ s.conn.version)
      × (s'.disconnections ≡ s.disconnections)
unfolding attempt start_connect connect_handler enqueue_response_plea clear_response_pleas
    choose_mode
attempt_kept minute now e es s s' idle has r = ground arith

-- The end of a connection whose mode is not being detected: no flag, socket, session or plea is
-- left, the timer waits for ever, no task is posted, and `m_onDisconnected` is called once.
disconnect_finalize_lem :
    (minute now : ℕ) (s : Stratum)
    → is_detecting s.conn ≡ false
    → let s' = disconnect_finalize minute now s in
      (s'.disconnecting ≡ false)
      × (s'.authpending ≡ false)
      × (s'.socket ≡ none)
      × (s'.session ≡ none)
      × (s'.response_pleas_count ≡ 0)
      × (s'.timer_runs ≡ false)
      × (s'.tasks ≡ s.tasks)
      × (s'.disconnections ≡ s.disconnections + 1)
unfolding disconnect_finalize release_connection go_to_sleep clear_response_pleas
disconnect_finalize_lem minute now s e = rw e (refl, refl, refl, refl, refl, refl, refl, refl)
