-- ===== src/Stratum/Timer.antt =====
-- libpoolprotocols/stratum/EthStratumClient.cpp: `workloop_timer_elapsed`, less the message that
-- keeps an EthereumStratum/2.0.0 session alive.
use firominer.Base.{
  ℕ, ◌-◌, ◌*◌, ◌/◌, ◌≤◌, ◌<◌, ◌≡◌, Bool, true, false, ◌&&◌, not, ◌||◌, Option, none,
}
use firominer.Base.{some, List, ◌∷◌, ltb, leb, if◌then◌else◌, arith}
use firominer.Stratum.Pleas.{clear_response_pleas}
use firominer.Stratum.Connect.{pop_endpoint}
use firominer.Stratum.Disconnect.{closed}
use firominer.Stratum.{
  Stratum, opened, post, disconnects, login_fails, is_pending_state, is_connected,
}

-- `m_responsetimeout` and `m_worktimeout` in seconds, and `m_current_timestamp`.
pub record Timeouts : Type 0 where
  pub response_timeout : ℕ
  pub work_timeout : ℕ
  pub current_timestamp : ℕ

abbrev has_session : Option ℕ → Bool
has_session none = false
has_session (some start) = true

-- Nobody answers: the endpoint is discarded and the connection ends.
abbrev give_up_endpoint : ℕ → Stratum → Option (List ℕ) → Option Stratum
give_up_endpoint now s none = none
give_up_endpoint now s (some es) =
    some (post disconnects (clear_response_pleas now (record s { endpoints = es })))

abbrev rearm : Option Stratum → Option Stratum
rearm none = none
rearm (some s) = some (record s { timer_runs = true })

-- The responses that a connected client waits for.
unfoldable pub check_connected : Timeouts → ℕ → Stratum → Option Stratum
unfolding clear_response_pleas
check_connected t now s =
    if leb (t.response_timeout * 1000) (now - s.response_plea_older)
    then if not s.conn.stratum_mode_confirmed && not s.conn.unrecoverable
      then some (post login_fails (clear_response_pleas now s))
      else give_up_endpoint now s (pop_endpoint s.endpoints)
    else if has_session s.session && ltb t.work_timeout ((now - t.current_timestamp) / 1000)
    then give_up_endpoint now s (pop_endpoint s.endpoints)
    else some s

-- The socket is closed, to cancel its operations, and the function returns at once.
abbrev pub is_cut_off : Timeouts → ℕ → Stratum → Bool
is_cut_off t now s =
    ltb 0 s.response_pleas_count
    && (is_pending_state s
        && (leb (now - s.response_plea_older) (t.response_timeout * 1000)
            && (s.connecting || (s.disconnecting && (s.conn.is_secure && opened s.securesocket)))))

abbrev pub cut_off : Stratum → Stratum
cut_off s =
    if s.connecting
    then record s { socket = closed s.socket }
    else record s { securesocket = closed s.securesocket }

-- `workloop_timer_elapsed`, with whether the timer was cancelled; nothing is an undefined `pop`.
unfoldable pub workloop_timer_elapsed : Timeouts → Bool → ℕ → Stratum → Option Stratum
unfolding check_connected is_pending_state is_connected
workloop_timer_elapsed t aborted now s =
    let s1 = record s { timer_runs = false } in
    if aborted
    then some s
    else if is_cut_off t now s1
    then some (cut_off s1)
    else if ltb 0 s1.response_pleas_count && is_connected s1
    then rearm (check_connected t now s1)
    else some (record s1 { timer_runs = true })

-- A client that is connecting and waits for a response. While the delay is at most the timeout,
-- the first run of the timer closes the socket and leaves the timer off; after the timeout the
-- socket is left as it is, and the timer goes on.
pub workloop_timer_elapsed-connecting :
    (t : Timeouts) (now : ℕ) (s : Stratum)
    → s.connecting ≡ true
    → 0 < s.response_pleas_count
    → let delay = now - s.response_plea_older in
      let timeout = t.response_timeout * 1000 in
      let result = workloop_timer_elapsed t false now s in
      result
      ≡ some (
          if leb delay timeout
          then record s { timer_runs = false; socket = closed s.socket }
          else record s { timer_runs = true })
unfolding workloop_timer_elapsed check_connected is_pending_state is_connected
workloop_timer_elapsed-connecting t now s connecting waits = ground arith

-- A connected client that waits for a response, with an endpoint, and whose work has not timed out:
-- before the response times out the timer does nothing but run again; afterwards, the login fails
-- where the stratum mode is still to be found, and otherwise the client disconnects. In both the
-- pleas are cleared, and the timer runs again.
workloop_timer_elapsed-connected :
    (t : Timeouts) (now e : ℕ) (es : List ℕ) (s : Stratum)
    → is_connected s ≡ true
    → 0 < s.response_pleas_count
    → s.endpoints ≡ e ∷ es
    → (now - t.current_timestamp) / 1000 ≤ t.work_timeout
    → let delay = now - s.response_plea_older in
      let timeout = t.response_timeout * 1000 in
      let result = workloop_timer_elapsed t false now s in
      let running = record s { timer_runs = true } in
      let detecting = not s.conn.stratum_mode_confirmed && not s.conn.unrecoverable in
      result
      ≡ some (
          if ltb delay timeout
          then running
          else if detecting
          then post login_fails (clear_response_pleas now running)
          else post disconnects (clear_response_pleas now (record running { endpoints = es })))
unfolding workloop_timer_elapsed check_connected is_pending_state is_connected
workloop_timer_elapsed-connected t now e es s connected waits has_endpoint has_work = ground arith
