-- ===== src/Getwork/Connect.antt =====
-- libpoolprotocols/getwork/EthGetworkClient.cpp: connections, their queue, and the timer.
use firominer.Base.{
  ℕ, ◌+◌, ◌-◌, ◌/◌, Bool, true, false, ◌||◌, List, [], ◌∷◌, ◌++◌, Option, none, some,
}
use firominer.Base.{ltb, if◌then◌else◌}
use firominer.Getwork.{Getwork, GetworkRequest, get_block_template, submit_block, no_operation}
use firominer.Getwork.{resolves_host, reads_response, connects_to, writes_request, called_connected}
use firominer.Getwork.{called_disconnected, Continuation, goes_on, ends_process, add_call}

-- `disconnect`; without a session it reads its start through a null pointer.
abbrev pub end_session : ℕ → Option ℕ → Getwork → Continuation
end_session minute none g = ends_process
end_session minute (some start) g = goes_on (
    add_call called_disconnected (record g {
      connected = false;
      total_duration = g.total_duration + (minute - start);
      session = none;
      connecting = false;
      tx_pending = false;
      timer = none;
      tx_queue = [];
    }))

unfoldable pub disconnect_node : ℕ → Getwork → Continuation
disconnect_node minute g = end_session minute g.session g

-- `begin_connect`, on the endpoints that are left.
unfoldable pub connect_first : ℕ → List ℕ → Getwork → Continuation
unfolding disconnect_node
connect_first minute [] g = disconnect_node minute g
connect_first minute (e ∷ es) g = goes_on (record g { operation = connects_to e })

unfoldable pub begin_connect : ℕ → Getwork → Continuation
unfolding connect_first
begin_connect minute g = connect_first minute g.endpoints g

-- `send`; `spurious` is a `compare_exchange_weak` that fails on the value that it expects.
unfoldable pub send_request : Bool → ℕ → GetworkRequest → Getwork → Continuation
unfolding begin_connect
send_request spurious minute x g =
    let queued = record g { tx_queue = g.tx_queue ++ x ∷ [] } in
    if g.tx_pending || spurious
    then goes_on queued
    else begin_connect minute (record queued { tx_pending = true })

-- `connect`, with the endpoint of a host that is an address. `spurious` is as in `send`.
unfoldable pub connect_node : Bool → ℕ → ℕ → Getwork → Continuation
unfolding send_request
connect_node spurious minute address g =
    let g1 = record g { connecting = true; timer = none; endpoints = [] } in
    if g.connecting || spurious
    then goes_on g
    else if g1.needs_resolver
    then goes_on (record g1 { operation = resolves_host })
    else send_request false minute get_block_template (record g1 { endpoints = address ∷ [] })

-- `handle_resolve`; no endpoints are an error.
unfoldable pub handle_resolve : ℕ → Option (List ℕ) → Getwork → Continuation
unfolding send_request disconnect_node
handle_resolve minute (some found) g =
    send_request false minute get_block_template
      (record g { endpoints = g.endpoints ++ found; operation = no_operation })
handle_resolve minute none g = disconnect_node minute (record g { operation = no_operation })

-- How an operation ends: with success, with an error, or cancelled.
pub data Completion : Type 0 where
  succeeded failed cancelled : Completion

-- `m_endpoints.pop()`; on no endpoints it is undefined, and ends the process here.
abbrev pub drop_endpoint : List ℕ → Getwork → (Getwork → Continuation) → Continuation
drop_endpoint [] g k = ends_process
drop_endpoint (e ∷ es) g k = k (record g { endpoints = es })

-- The next request of the queue is written.
abbrev pub write_next : ℕ → List GetworkRequest → Getwork → Getwork
write_next now [] g = record g { tx_pending = false }
write_next now (x ∷ xs) g = record g {
  tx_queue = xs;
  pending_request = some x;
  pending_tstamp = now;
  operation = writes_request x;
}

-- The first connection starts a session.
abbrev pub open_session : ℕ → ℕ → Getwork → Getwork
open_session minute now g =
    if g.connecting
    then add_call called_connected (record g {
      connected = true;
      session = some minute;
      connecting = false;
      current_tstamp = now;
    })
    else g

-- `handle_connect`; a socket that is not open is an error.
unfoldable pub handle_connect : Completion → ℕ → ℕ → Getwork → Continuation
unfolding begin_connect
handle_connect succeeded minute now g =
    let g1 = open_session minute now (record g { operation = no_operation }) in
    goes_on (write_next now g1.tx_queue g1)
handle_connect failed minute now g =
    drop_endpoint g.endpoints (record g { operation = no_operation }) (begin_connect minute)
handle_connect cancelled minute now g = goes_on (record g { operation = no_operation })

-- `handle_write`.
unfoldable pub handle_write : Completion → ℕ → Getwork → Continuation
unfolding begin_connect
handle_write succeeded minute g = goes_on (record g { operation = reads_response })
handle_write failed minute g =
    drop_endpoint g.endpoints (record g { operation = no_operation }) (begin_connect minute)
handle_write cancelled minute g = goes_on (record g { operation = no_operation })

-- `getwork_timer_elapsed`, where the timer has not been cancelled; the timeout is in seconds.
unfoldable pub getwork_timer_elapsed : ℕ → ℕ → ℕ → Getwork → Continuation
unfolding send_request disconnect_node
getwork_timer_elapsed worktimeout minute now g =
    let g1 = record g { timer = none } in
    if ltb worktimeout ((now - g1.current_tstamp) / 1000)
    then drop_endpoint g1.endpoints g1 (disconnect_node minute)
    else send_request false minute get_block_template g1

-- `submitSolution`, of a miner's index and the texts of a solution.
unfoldable pub submit_to_node : Bool → ℕ → ℕ → List ℕ → List ℕ → List ℕ → Getwork → Continuation
unfolding send_request
submit_to_node spurious minute midx header mix nonce g =
    let id = 40 + midx in
    let max_id = if ltb g.solution_submitted_max_id id then id else g.solution_submitted_max_id in
    elim g.session [
      | none ↦ goes_on g
      | some start ↦
          send_request spurious minute (submit_block id header mix nonce)
            (record g { solution_submitted_max_id = max_id })
    ]
