-- ===== src/Stratum/Response/Steps.antt =====
-- libpoolprotocols/stratum/EthStratumClient.cpp: the steps of a login that the responses after the
-- first make.
use firominer.Stratum.Response.Phases.{phase_at, phase, LoginStep, step_to, dequeue-SameLogin}
use firominer.Stratum.Response.Phases.{SameLogin-phase, online, stays, subscribes, authorizes}
use firominer.Stratum.Response.{on_stratum, Session, give_up, returns, Message, Client, mode_of}
use firominer.Stratum.Response.Replies.{result_succeeds, on_authorized, on_worker_id, on_submitted}
use firominer.Stratum.Response.Replies.{
  on_submitted2, on_999, has_text_result, after_write, dequeued,
}
use firominer.Stratum.Response.Replies.{on_session_id}
use firominer.Stratum.Response.Kept.{Holds-if, Holds, SameLogin}
use firominer.Stratum.Pleas.{enqueue_response_plea}
use firominer.Base.{
  ◌∙◌, ap, sym, subst, Option-cases, get_or, if◌then◌else◌, ℕ, Bool, true, false, not,
}
use firominer.Base.{◌||◌, ◌&&◌, ◌==◌, ◌≡◌, refl, arith, Bool-cases, inl, inr}

-- A write through `m_session` makes the step that its flags make.
after_write-LoginStep :
    (id : ℕ) (c c1 : Client) (s : Session) (f : Client → Client)
    → SameLogin c c1
    → ((x : Client) → phase (f x) ≡ phase x)
    → LoginStep id
        (online (mode_of c) c.session.subscribed c.session.authorized)
        (online (mode_of c) s.subscribed s.authorized)
    → Holds (λ c'. LoginStep id (phase c) (phase c')) (after_write c1.stratum.session s c1 f)
after_write-LoginStep id c c1 s f same kept step = elim (Option-cases c1.stratum.session) [
  | inl e ↦ rw e tt
  | inr (start, e) ↦
      let before = sym same.same_session ∙ e in
      let from : phase c ≡ online (mode_of c) c.session.subscribed c.session.authorized =
        ap (λ o. phase_at o (mode_of c) c.session.subscribed c.session.authorized) before in
      let to : phase (f (record c1 { session = s }))
          ≡ online (mode_of c) s.subscribed s.authorized =
        kept (record c1 { session = s }) ∙ rw (e, same.same_conn) refl in
      subst (Holds (λ c'. LoginStep id (phase c) (phase c')))
        (ap (λ o. after_write o s c1 f) (sym e))
        (subst (λ p. LoginStep id p (phase (f (record c1 { session = s })))) (sym from)
          (step_to step to))
]

pub on_session_id-LoginStep :
    (m : Message) (now : ℕ) (c : Client)
    → m.id ≡ 2
    → mode_of c ≡ 3
    → Holds (λ c'. LoginStep m.id (phase c) (phase c')) (on_session_id m now c)
unfolding on_session_id enqueue_response_plea
on_session_id-LoginStep m now c two mode =
    let same = dequeue-SameLogin now c in
    let c1 = (dequeued now c).1 in
    let s = record (c1.session) { session_id = m.result_text; subscribed = true } in
    Holds-if (λ c'. LoginStep m.id (phase c) (phase c')) (has_text_result m) _
      (returns (give_up c1))
      (after_write-LoginStep m.id c c1 s _ same (λ x. refl) (subscribes two mode))
      (step_to stays (SameLogin-phase same))

pub on_worker_id-LoginStep :
    (m : Message) (now : ℕ) (c : Client)
    → m.id ≡ 3
    → Holds (λ c'. LoginStep m.id (phase c) (phase c')) (on_worker_id m now c)
unfolding on_worker_id
on_worker_id-LoginStep m now c three =
    let same = dequeue-SameLogin now c in
    let c1 = (dequeued now c).1 in
    let c2 = on_stratum (λ s. record s { authpending = false }) c1 in
    let s = record (c1.session) { authorized = true; worker_id = m.result_text } in
    let still : SameLogin c c2 = ground (arith, same) in
    Holds-if (λ c'. LoginStep m.id (phase c) (phase c')) (m.error_is_empty && has_text_result m) _
      (returns (give_up c1))
      (after_write-LoginStep m.id c c2 s (λ x. x) still (λ x. refl) (authorizes three))
      (step_to stays (SameLogin-phase same))

given_up-phase : (b : Bool) (c : Client) → phase (if b then c else give_up c) ≡ phase c
given_up-phase true c = refl
given_up-phase false c = refl

pub on_authorized-LoginStep :
    (m : Message) (now : ℕ) (c : Client)
    → m.id ≡ 3
    → Holds (λ c'. LoginStep m.id (phase c) (phase c')) (on_authorized m now c)
unfolding on_authorized
on_authorized-LoginStep m now c three =
    let same = dequeue-SameLogin now c in
    let c1 = on_stratum (λ s. record s { authpending = false }) (dequeued now c).1 in
    let s = record (c1.session) { authorized = result_succeeds m } in
    let still : SameLogin c c1 = ground (arith, same) in
    after_write-LoginStep m.id c c1 s _ still (λ x. given_up-phase (result_succeeds m) x)
      (authorizes three)

pub on_submitted-phase :
    (m : Message) (now : ℕ) (c : Client) → phase (on_submitted m now c) ≡ phase c
unfolding on_submitted
on_submitted-phase m now c =
    let same = SameLogin-phase (dequeue-SameLogin now c) in
    elim (Bool-cases (result_succeeds m)) [ inl e ↦ rw e same | inr e ↦ rw e same ]

pub on_submitted2-phase :
    (m : Message) (now : ℕ) (c : Client) → phase (on_submitted2 m now c) ≡ phase c
unfolding on_submitted2
on_submitted2-phase m now c =
    let same = SameLogin-phase (dequeue-SameLogin now c) in
    let accepted = m.error_is_empty || (not m.error_is_empty && get_or m.error_code 0 0 == b'2') in
    elim (Bool-cases accepted) [ inl e ↦ rw e same | inr e ↦ rw e same ]

pub on_999-phase : (m : Message) (c : Client) → phase (on_999 m c) ≡ phase c
unfolding on_999
on_999-phase m c = ground arith
