-- ===== src/Stratum/Response/Replies.antt =====
-- libpoolprotocols/stratum/EthStratumClient.cpp: the responses after the first, in
-- `processResponse`.
use firominer.Stratum.Response.{
  Message, Session, Client, Outcome, is_subscribed, is_authorized, send,
}
use firominer.Stratum.Response.{call, on_stratum, post_disconnect, give_up, is_confirmed}
use firominer.Stratum.Response.{
  mining_authorize, on_solution_accepted, on_solution_rejected, returns,
}
use firominer.Stratum.Response.{aborts}
use firominer.Stratum.Response.Login.{await_authorization}
use firominer.Base.{
  ℕ, ◌-◌, Bool, true, false, ◌&&◌, ◌||◌, not, List, [], ◌∷◌, Option, none, some, ◌==◌,
}
use firominer.Base.{if◌then◌else◌, get_or}
use firominer.Stratum.Pleas.{dequeue_response_plea}

-- `dequeue_response_plea`: the delay and the client.
abbrev pub dequeued : ℕ → Client → ℕ × Client
dequeued now c =
    let (delay, s) = dequeue_response_plea now c.stratum in (delay, record c { stratum = s })

abbrev pub is_nonempty : List ℕ → Bool
is_nonempty [] = false
is_nonempty (x ∷ xs) = true

-- A result that is a text with something in it.
abbrev pub has_text_result : Message → Bool
has_text_result m = m.result_is_string && is_nonempty m.result_text

-- A write through `m_session`, and what follows it.
abbrev pub after_write : Option ℕ → Session → Client → (Client → Client) → Outcome
after_write none s c f = aborts
after_write (some start) s c f = returns (f (record c { session = s }))

-- The response to `mining.subscribe` of EthereumStratum/2.0.0, with the session's id.
unfoldable pub on_session_id : Message → ℕ → Client → Outcome
unfolding dequeue_response_plea
on_session_id m now c =
    let c1 = (dequeued now c).1 in
    if has_text_result m
    then after_write c1.stratum.session
        (record (c1.session) { session_id = m.result_text; subscribed = true }) c1
        (λ c2. send mining_authorize (await_authorization now c2))
    else returns (give_up c1)

-- What the response says of success: a Boolean result counts where there is no error.
abbrev pub result_succeeds : Message → Bool
result_succeeds m =
    if m.error_is_empty && m.result_is_bool then m.result_as_bool else m.error_is_empty

-- The response to `mining.authorize`, in the modes but EthereumStratum/2.0.0.
unfoldable pub on_authorized : Message → ℕ → Client → Outcome
unfolding dequeue_response_plea
on_authorized m now c =
    let c1 = on_stratum (λ s. record s { authpending = false }) (dequeued now c).1 in
    after_write c1.stratum.session (record (c1.session) { authorized = result_succeeds m }) c1
      (λ c2. if result_succeeds m then c2 else give_up c2)

-- The response to `mining.authorize` of EthereumStratum/2.0.0, with the worker's id.
unfoldable pub on_worker_id : Message → ℕ → Client → Outcome
unfolding dequeue_response_plea
on_worker_id m now c =
    let c1 = (dequeued now c).1 in
    if m.error_is_empty && has_text_result m
    then after_write c1.stratum.session
        (record (c1.session) { authorized = true; worker_id = m.result_text })
        (on_stratum (λ s. record s { authpending = false }) c1) (λ c2. c2)
    else returns (give_up c1)

abbrev pub report : Bool → ℕ → ℕ → Bool → Client → Client
report accepted delay miner_index is_stale c =
    if accepted
    then call (on_solution_accepted delay miner_index is_stale) c
    else call (on_solution_rejected delay miner_index) c

-- The response to a solution, in the modes but EthereumStratum/2.0.0.
unfoldable pub on_submitted : Message → ℕ → Client → Client
unfolding dequeue_response_plea
on_submitted m now c =
    let (delay, c1) = dequeued now c in report (result_succeeds m) delay (m.id - 40) false c1

-- The response to a solution in EthereumStratum/2.0.0: an error whose code starts with 2 is a
-- solution that is accepted, and likely stale.
unfoldable pub on_submitted2 : Message → ℕ → Client → Client
unfolding dequeue_response_plea
on_submitted2 m now c =
    let (delay, c1) = dequeued now c in
    let is_stale = not m.error_is_empty && get_or m.error_code 0 0 == b'2' in
    report (m.error_is_empty || is_stale) delay (m.id - 40) is_stale c1

-- The response with id 999, of ethermine.org: an error ends a login that is not complete.
unfoldable pub on_999 : Message → Client → Client
unfolding is_subscribed is_authorized
on_999 m c =
    if not m.error_is_empty && not (is_confirmed c)
    then post_disconnect c
    else if not m.error_is_empty && not (is_subscribed c && is_authorized c)
    then post_disconnect c
    else c
