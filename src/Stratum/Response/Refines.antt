-- ===== src/Stratum/Response/Refines.antt =====
-- libpoolprotocols/stratum/EthStratumClient.cpp: each message makes a step of the login at most,
-- and what follows for the messages of a connection.
use firominer.Stratum.Response.Steps.{on_session_id-LoginStep, on_worker_id-LoginStep}
use firominer.Stratum.Response.Steps.{
  on_authorized-LoginStep, on_submitted-phase, on_submitted2-phase,
}
use firominer.Stratum.Response.Steps.{on_999-phase}
use firominer.Stratum.Response.{Message, Client, Outcome, mode_of, mining_notify, returns}
use firominer.Stratum.Response.Process.{ReplyKind, reply_kind, on_reply, is_notification}
use firominer.Stratum.Response.Process.{method_or_notify, is_invalid, process_response, to_login}
use firominer.Stratum.Response.Process.{to_second, to_third, to_solution, to_get_work, to_hashrate}
use firominer.Stratum.Response.Process.{to_nothing, unknown_id}
use firominer.Stratum.Response.Kept.{
  Holds, Holds-if, Holds-weaken, SameLogin, on_notification-SameLogin,
}
use firominer.Stratum.Response.Phases.{phase, LoginStep, stays, step_to, SameLogin-phase}
use firominer.Stratum.Response.Phases.{on_login_response-LoginStep}
use firominer.Base.{ℕ, ◌&&◌, ◌==◌, ◌≡◌, refl, arith, Bool-cases, inl, inr}

reply_kind-login : (max_id id : ℕ) → reply_kind max_id id ≡ to_login → id ≡ 1
unfolding reply_kind
reply_kind-login max_id id e = ground (arith, e)

reply_kind-second : (max_id id : ℕ) → reply_kind max_id id ≡ to_second → id ≡ 2
unfolding reply_kind
reply_kind-second max_id id e = ground (arith, e)

reply_kind-third : (max_id id : ℕ) → reply_kind max_id id ≡ to_third → id ≡ 3
unfolding reply_kind
reply_kind-third max_id id e = ground (arith, e)

-- The phase after an outcome is a step from the phase before it.
abbrev Steps : Message → Client → Outcome → Type 0
Steps m c o = Holds (λ c'. LoginStep m.id (phase c) (phase c')) o

Steps-kept : (m : Message) (c : Client) (o : Outcome) → Holds (SameLogin c) o → Steps m c o
Steps-kept m c o h = Holds-weaken o (λ c' same. step_to stays (SameLogin-phase same)) h

Steps-returns : (m : Message) (c c' : Client) → phase c' ≡ phase c → Steps m c (returns c')
Steps-returns m c c' e = step_to stays e

on_reply-Steps :
    (kind : ReplyKind) (m : Message) (minute now : ℕ) (c : Client)
    → reply_kind c.stratum.solution_submitted_max_id m.id ≡ kind
    → Steps m c (on_reply kind m minute now c)
unfolding on_reply
on_reply-Steps to_login m minute now c e =
    on_login_response-LoginStep m minute now c (reply_kind-login _ _ e)
on_reply-Steps to_second m minute now c e = elim (Bool-cases (mode_of c == 3)) [
  | inl b ↦ rw b (on_session_id-LoginStep m now c (reply_kind-second _ _ e) (ground (arith, b)))
  | inr b ↦ rw b stays
]
on_reply-Steps to_third m minute now c e =
    let third = reply_kind-third _ _ e in
    Holds-if (λ c'. LoginStep m.id (phase c) (phase c')) (mode_of c == 3) _ _
      (on_worker_id-LoginStep m now c third) (on_authorized-LoginStep m now c third)
on_reply-Steps to_solution m minute now c e = elim (Bool-cases (mode_of c == 3)) [
  | inl b ↦ rw b (step_to stays (on_submitted2-phase m now c))
  | inr b ↦ rw b (step_to stays (on_submitted-phase m now c))
]
on_reply-Steps to_get_work m minute now c e =
    Holds-if (λ c'. LoginStep m.id (phase c) (phase c')) (mode_of c == 1 && m.result.is_array) _
      (returns c) (Steps-kept m c _ (on_notification-SameLogin mining_notify m c)) stays
on_reply-Steps to_hashrate m minute now c e = stays
on_reply-Steps to_nothing m minute now c e = step_to stays (on_999-phase m c)
on_reply-Steps unknown_id m minute now c e = stays

-- Whatever the pool sends, `processResponse` refines the login of the protocols: the phase of the
-- client stays, or makes the one step that a response with the message's id stands for.
pub process_response-LoginStep :
    (m : Message) (minute now : ℕ) (c : Client)
    → Holds (λ c'. LoginStep m.id (phase c) (phase c')) (process_response m minute now c)
unfolding process_response
process_response-LoginStep m minute now c =
    let P : Client → Type 0 = λ c'. LoginStep m.id (phase c) (phase c') in
    Holds-if P (is_invalid m) _ _ stays (
      Holds-if P (is_notification m) _ _
        (Steps-kept m c _ (on_notification-SameLogin (method_or_notify m.method m c) m c))
        (on_reply-Steps (reply_kind c.stratum.solution_submitted_max_id m.id) m minute now c refl))
