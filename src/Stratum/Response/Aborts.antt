-- ===== src/Stratum/Response/Aborts.antt =====
-- libpoolprotocols/stratum/EthStratumClient.cpp: when `processResponse` ends the whole process.
use firominer.Stratum.Response.{is_confirmed, Message, Client}
use firominer.Stratum.Response.{is_subscribed, mode_of, mining_notify, aborts}
use firominer.Stratum.Response.Replies.{on_authorized}
use firominer.Stratum.Response.Process.{on_notification, reply_kind, on_reply}
use firominer.Stratum.Response.Process.{is_notification, is_invalid, process_response}
use firominer.Stratum.Response.Process.{to_third}
use firominer.Stratum.Response.Process.{notice}
use firominer.Stratum.Response.Phases.{dequeue-SameLogin}
use firominer.Stratum.Response.Notices.{max_block, notify_stratum, notify_array, on_mining_notify}
use firominer.Base.{ℕ, true, false, ◌<◌, ◌==◌, ltb, none, ◌≡◌, ◌∙◌, refl, arith}

-- Before a session, in any mode but EthereumStratum/2.0.0, a response with id 3 ends the process:
-- its answer is written through a null pointer.
pub on_authorized-aborts :
    (m : Message) (minute now : ℕ) (c : Client)
    → c.stratum.session ≡ none
    → m.id ≡ 3
    → is_invalid m ≡ false
    → is_notification m ≡ false
    → (mode_of c == 3) ≡ false
    → process_response m minute now c ≡ aborts
unfolding process_response
on_authorized-aborts m minute now c no_session third valid reply mode =
    let kind : reply_kind c.stratum.solution_submitted_max_id m.id ≡ to_third =
      unfold reply_kind in rw third refl in
    let null = (dequeue-SameLogin now c).same_session ∙ no_session in
    rw (valid, reply, kind) (unfold on_reply in rw mode (unfold on_authorized in rw null refl))

-- A job of plain stratum for a block above 0x9660180 ends the process, on a client that is
-- subscribed and has had no other job in the transmission: the exception that is thrown is a
-- pointer, which no handler takes.
pub notice-aborts :
    (m : Message) (minute now : ℕ) (c : Client)
    → is_invalid m ≡ false
    → m.method ≡ mining_notify
    → is_confirmed c ≡ true
    → mode_of c ≡ 0
    → is_subscribed c ≡ true
    → c.new_job_processed ≡ false
    → m.params.is_array ≡ true
    → m.params.is_empty ≡ false
    → max_block < m.params.as_int64 5
    → process_response m minute now c ≡ aborts
unfolding process_response on_notification
notice-aborts m minute now c valid notified confirmed mode subscribed fresh array full high =
    let over : ltb max_block (m.params.as_int64 5) ≡ true = ground (arith, high) in
    rw (valid, notified, confirmed)
      (unfold notice on_mining_notify notify_array notify_stratum in
        rw (mode, subscribed, fresh, array, full, over) refl)
