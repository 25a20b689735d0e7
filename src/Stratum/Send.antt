-- ===== src/Stratum/Send.antt =====
-- libpoolprotocols/stratum/EthStratumClient.cpp: the queue of lines to the pool. `async_write` of
-- Boost writes a whole buffer, or calls its handler with an error; an operation of the socket that
-- is under way is `writing`.
pub mod Order
use firominer.Base.{
  ℕ, Bool, true, false, ◌&&◌, ◌||◌, not, Option, none, some, List, [], ◌∷◌, ◌++◌, ◌≡◌,
}
use firominer.Base.{◌==◌, refl, ◌⊎◌, inl, inr, if◌then◌else◌, arith, sym, ap, ◌∙◌, Bool-cases}
use firominer.Stratum.{Stratum, is_connected, post, disconnects}
use mathlib.Core.List.{append_assoc, append-nil}

-- The lines of `m_txQueue`, those that `async_write` has, and those that it has written.
pub record Sender : Type 0 where
  pub stratum : Stratum
  pub tx_queue : List (List ℕ)
  pub writing : Option (List (List ℕ))
  pub written : List (List ℕ)
  -- `m_session->lastTxStamp`, where there is a session.
  pub last_tx_stamp : ℕ

abbrev pub set_pending : Bool → Sender → Sender
set_pending pending s = record s { stratum = record (s.stratum) { tx_pending = pending } }

-- The queue and the buffer are cleared.
abbrev pub drop_queue : Sender → Sender
drop_queue s = set_pending false (record s { tx_queue = [] })

-- `sendSocketData`.
abbrev pub write_queue : List (List ℕ) → Sender → Sender
write_queue [] s = drop_queue s
write_queue (l ∷ ls) s = record s { tx_queue = []; writing = some (l ∷ ls) }

unfoldable pub send_socket_data : Sender → Sender
unfolding is_connected
send_socket_data s = if is_connected s.stratum then write_queue s.tx_queue s else drop_queue s

-- `send`; `spurious` is a `compare_exchange_weak` that fails on the value that it expects.
unfoldable pub send_line : Bool → List ℕ → Sender → Sender
unfolding send_socket_data
send_line spurious line s =
    let queued = record s { tx_queue = s.tx_queue ++ line ∷ [] } in
    if s.stratum.tx_pending || spurious then queued else send_socket_data (set_pending true queued)

abbrev pub lines_of : Option (List (List ℕ)) → List (List ℕ)
lines_of none = []
lines_of (some ls) = ls

abbrev pub post_on : Bool → Sender → Sender
post_on b s = if b then record s { stratum = post disconnects s.stratum } else s

-- `onSendSocketDataCompleted` with an error: `ssl_shutdown` is whether it is that of a TLS
-- connection which has been shut down.
unfoldable pub on_send_error : Bool → Sender → Sender
unfolding is_connected
on_send_error ssl_shutdown s =
    let dropped = drop_queue (record s { writing = none }) in
    post_on (is_connected s.stratum) (post_on ssl_shutdown dropped)

abbrev pub has_session : Option ℕ → Bool
has_session none = false
has_session (some start) = true

-- `onSendSocketDataCompleted` without an error.
unfoldable pub on_send_completed : ℕ → Sender → Sender
unfolding send_socket_data
on_send_completed now s =
    let stamps = has_session s.stratum.session && s.stratum.conn.stratum_mode == 3 in
    let done = record s {
      written = s.written ++ lines_of s.writing;
      writing = none;
      last_tx_stamp = if stamps then now else s.last_tx_stamp;
    } in
    let more = send_socket_data done in
    elim s.tx_queue [ [] ↦ set_pending false done | l ∷ ls ↦ more ]

-- What happens to the sender of a connection that stays up.
pub data SendEvent : Type 0 where
  sends : List ℕ → SendEvent
  completes : ℕ → SendEvent

-- A write completes only if there is one.
abbrev pub complete : ℕ → Option (List (List ℕ)) → Sender → Sender
unfolding on_send_completed
complete now none s = s
complete now (some ls) s = on_send_completed now s

unfoldable pub send_event : SendEvent → Sender → Sender
unfolding send_line complete
send_event (sends line) s = send_line false line s
send_event (completes now) s = complete now s.writing s

unfoldable pub send_events : List SendEvent → Sender → Sender
unfolding send_event
send_events [] s = s
send_events (e ∷ es) s = send_events es (send_event e s)

abbrev pub sent_lines : List SendEvent → List (List ℕ)
sent_lines [] = []
sent_lines (sends line ∷ es) = line ∷ sent_lines es
sent_lines (completes now ∷ es) = sent_lines es
