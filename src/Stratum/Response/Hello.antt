-- ===== src/Stratum/Response/Hello.antt =====
-- libpoolprotocols/stratum/EthStratumClient.cpp: a login of EthereumStratum/2.0.0, from its three
-- responses.
use firominer.Stratum.Response.{is_some, protocol, mining_subscribe, Message, Client, Outcome}
use firominer.Stratum.Response.{is_subscribed, is_authorized, send, on_stratum, mode_of}
use firominer.Stratum.Response.{mining_authorize, returns, throws, aborts}
use firominer.Stratum.Response.Login.{log_in, start_session, await_authorization, accepts_hello}
use firominer.Stratum.Response.Login.{login_by, on_login_response}
use firominer.Stratum.Response.Replies.{after_write, on_authorized, dequeued, has_text_result}
use firominer.Stratum.Response.Replies.{on_session_id, on_worker_id}
use firominer.Stratum.Response.Process.{
  ReplyKind, to_login, to_second, to_third, reply_kind, on_reply,
}
use firominer.Stratum.Response.Process.{is_notification, is_invalid, process_response}
use firominer.Stratum.Response.Phases.{dequeue-SameLogin}
use firominer.Stratum.Receive.{settle}
use firominer.Base.{
  ℕ, true, false, ◌&&◌, ◌==◌, if◌then◌else◌, List, [], ◌∷◌, some, ◌≡◌, ◌∙◌, ap, refl,
}
use firominer.Stratum.Pleas.{enqueue_response_plea}
use firominer.Stratum.Extranonce.{ethereumstratum2}

-- A valid response with an id, without an error.
pub record IsReply (id : ℕ) (m : Message) : Type 0 where
  pub has_id : m.id ≡ id
  pub valid : is_invalid m ≡ false
  pub is_response : is_notification m ≡ false
  pub succeeds : m.error_is_empty ≡ true

-- A client in a session of EthereumStratum/2.0.0.
record InHello (c : Client) : Type 0 where
  pub in_session : (start : ℕ) × (c.stratum.session ≡ some start)
  pub in_mode : mode_of c ≡ 3

process_reply :
    (id : ℕ) (kind : ReplyKind) (m : Message) (minute now : ℕ) (c : Client)
    → IsReply id m
    → reply_kind c.stratum.solution_submitted_max_id id ≡ kind
    → process_response m minute now c ≡ on_reply kind m minute now c
unfolding process_response
process_reply id kind m minute now c r e =
    rw (r.valid, r.is_response)
      (ap (λ k. on_reply k m minute now c)
        (ap (reply_kind c.stratum.solution_submitted_max_id) r.has_id ∙ e))

dequeued-mode : (now : ℕ) (c : Client) → mode_of (dequeued now c).1 ≡ mode_of c
dequeued-mode now c = ap (λ u. u.stratum_mode) (dequeue-SameLogin now c).same_conn

hello_response :
    (m : Message) (minute now : ℕ) (c : Client)
    → IsReply 1 m
    → mode_of c ≡ 3
    → accepts_hello m.login_result ≡ true
    → (c' : Client) × (process_response m minute now c ≡ returns c') × InHello c'
hello_response m minute now c r mode accepted =
    let c1 = (dequeued now c).1 in
    let c2 = send mining_subscribe (on_stratum (enqueue_response_plea now) (log_in 3 minute c1)) in
    let by_mode : on_login_response m minute now c
        ≡ login_by (protocol (mode_of c1)) m minute now c1 =
      unfold on_login_response in rw r.succeeds refl in
    let by_result : login_by (some ethereumstratum2) m minute now c1 ≡ c2 =
      unfold login_by in rw accepted refl in
    let hello =
      by_mode
      ∙ ap (λ n. login_by (protocol n) m minute now c1) (dequeued-mode now c ∙ mode)
      ∙ by_result in
    (
      c2,
      process_reply 1 to_login m minute now c r (unfold reply_kind in refl)
          ∙ unfold on_reply in ap returns hello,
      record {
        in_session = (minute, unfold enqueue_response_plea start_session in refl);
        in_mode = unfold enqueue_response_plea start_session in refl;
      },
    )

-- A response of the mode, which goes to its handler.
second_reply :
    (m : Message) (minute now : ℕ) (c : Client)
    → IsReply 2 m
    → mode_of c ≡ 3
    → process_response m minute now c ≡ on_session_id m now c
unfolding on_reply
second_reply m minute now c r mode =
    process_reply 2 to_second m minute now c r (unfold reply_kind in refl)
    ∙ ap (λ n. if n == 3 then on_session_id m now c else returns c) mode

third_reply :
    (m : Message) (minute now : ℕ) (c : Client)
    → IsReply 3 m
    → mode_of c ≡ 3
    → process_response m minute now c ≡ on_worker_id m now c
unfolding on_reply
third_reply m minute now c r mode =
    process_reply 3 to_third m minute now c r (unfold reply_kind in refl)
    ∙ ap (λ n. if n == 3 then on_worker_id m now c else on_authorized m now c) mode

session_id_response :
    (m : Message) (minute now : ℕ) (c : Client)
    → IsReply 2 m
    → InHello c
    → has_text_result m ≡ true
    → (c' : Client) × (process_response m minute now c ≡ returns c')
      × InHello c'
      × (c'.session.subscribed ≡ true)
session_id_response m minute now c r h text =
    let c1 = (dequeued now c).1 in
    let (start, has_start) = h.in_session in
    let kept = (dequeue-SameLogin now c).same_session ∙ has_start in
    let s = record (c.session) { session_id = m.result_text; subscribed = true } in
    let answer : Client → Client = λ x. send mining_authorize (await_authorization now x) in
    let written : on_session_id m now c ≡ after_write c1.stratum.session s c1 answer =
      unfold on_session_id in rw text refl in
    (
      answer (record c1 { session = s }),
      second_reply m minute now c r h.in_mode ∙ written ∙ ap (λ o. after_write o s c1 answer) kept,
      record {
        in_session = (start, unfold enqueue_response_plea in kept);
        in_mode = unfold enqueue_response_plea in dequeued-mode now c ∙ h.in_mode;
      },
      refl,
    )

worker_id_response :
    (m : Message) (minute now : ℕ) (c : Client)
    → IsReply 3 m
    → InHello c
    → c.session.subscribed ≡ true
    → has_text_result m ≡ true
    → (c' : Client) × (process_response m minute now c ≡ returns c')
      × (is_subscribed c' ≡ true)
      × (is_authorized c' ≡ true)
      × (c'.session.worker_id ≡ m.result_text)
unfolding is_subscribed is_authorized
worker_id_response m minute now c r h subscribed text =
    let c1 = (dequeued now c).1 in
    let c2 = on_stratum (λ s. record s { authpending = false }) c1 in
    let (start, has_start) = h.in_session in
    let kept = (dequeue-SameLogin now c).same_session ∙ has_start in
    let s = record (c.session) { authorized = true; worker_id = m.result_text } in
    let written : on_worker_id m now c ≡ after_write c2.stratum.session s c2 (λ x. x) =
      unfold on_worker_id in rw (r.succeeds, text) refl in
    (
      record c2 { session = s },
      third_reply m minute now c r h.in_mode ∙ written ∙ ap (λ o. after_write o s c2 (λ x. x)) kept,
      ap (λ o. is_some o && c.session.subscribed) kept ∙ subscribed,
      ap (λ o. is_some o && true) kept,
      refl,
    )

-- Messages one after another, as long as the process goes on.
unfoldable pub process_messages : List (Message × ℕ × ℕ) → Outcome → Outcome
unfolding process_response
process_messages [] o = o
process_messages ((m, minute, now) ∷ ms) (returns c) =
    process_messages ms (settle (process_response m minute now c))
process_messages (m ∷ ms) (throws c) = throws c
process_messages (m ∷ ms) aborts = aborts

-- In the mode of EthereumStratum/2.0.0, an accepted greeting, a session id and a worker id, each a
-- response without an error, leave the client subscribed and authorized, with that worker id.
pub process_messages-hello :
    (m1 m2 m3 : Message) (minute t1 t2 t3 : ℕ) (c : Client)
    → IsReply 1 m1
    → IsReply 2 m2
    → IsReply 3 m3
    → mode_of c ≡ 3
    → accepts_hello m1.login_result ≡ true
    → has_text_result m2 ≡ true
    → has_text_result m3 ≡ true
    → (c' : Client) × (process_messages
          ((m1, minute, t1) ∷ (m2, minute, t2) ∷ (m3, minute, t3) ∷ [])
          (returns c)
        ≡ returns c')
      × (is_subscribed c' ≡ true)
      × (is_authorized c' ≡ true)
      × (c'.session.worker_id ≡ m3.result_text)
unfolding process_messages
process_messages-hello m1 m2 m3 minute t1 t2 t3 c r1 r2 r3 mode accepted named worked =
    let (c1, e1, h1) = hello_response m1 minute t1 c r1 mode accepted in
    let (c2, e2, h2, subscribed) = session_id_response m2 minute t2 c1 r2 h1 named in
    let (c3, e3, subscribed3, authorized3, worker) =
      worker_id_response m3 minute t3 c2 r3 h2 subscribed worked in
    (
      c3,
      ap (λ o. process_messages ((m2, minute, t2) ∷ (m3, minute, t3) ∷ []) (settle o)) e1
          ∙ ap (λ o. process_messages ((m3, minute, t3) ∷ []) (settle o)) e2
          ∙ ap settle e3,
      subscribed3,
      authorized3,
      worker,
    )
