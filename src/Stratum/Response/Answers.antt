-- ===== src/Stratum/Response/Answers.antt =====
-- libpoolprotocols/stratum/EthStratumClient.cpp: the callbacks that `processResponse` makes, and
-- the answers to solutions.
use firominer.Stratum.Response.{Method, Outcome, post_disconnect, give_up, mining_notify, returns}
use firominer.Stratum.Response.{
  Message, Session, Client, mode_of, on_connected, on_solution_accepted,
}
use firominer.Stratum.Response.{on_solution_rejected}
use firominer.Stratum.Response.Replies.{
  has_text_result, on_session_id, result_succeeds, on_authorized,
}
use firominer.Stratum.Response.Replies.{on_worker_id, on_submitted, on_submitted2, on_999, dequeued}
use firominer.Stratum.Response.Replies.{after_write, report}
use firominer.Stratum.Response.Process.{on_notification, ReplyKind, on_reply, is_notification}
use firominer.Stratum.Response.Process.{method_or_notify, is_invalid, process_response, to_second}
use firominer.Stratum.Response.Process.{to_third, to_get_work, to_hashrate, to_nothing, unknown_id}
use firominer.Stratum.Response.Process.{reply_kind, to_login, to_solution}
use firominer.Base.{
  ℕ, Bool, true, false, not, ◌||◌, ◌&&◌, ◌-◌, ◌≤◌, ◌==◌, if◌then◌else◌, get_or, [],
}
use firominer.Base.{◌∷◌, ◌++◌, Option, none, some, ◌≡◌, refl, arith, Bool-cases, inl, inr, ◌⊎◌}
use firominer.Stratum.Response.Kept.{Holds, Holds-if, Holds-weaken, on_notification-SameLogin}
use firominer.Stratum.Response.Phases.{on_login_response-LoginMade}

-- The calls of a client after a message: no more, or one for the login, or one for a solution that
-- has been submitted, with the index of its miner.
abbrev pub Reported : Message → Client → Client → Type 0
Reported m c c' =
    (delay : ℕ) × (((stale : Bool) × (c'.calls
          ≡ c.calls ++ on_solution_accepted delay (m.id - 40) stale ∷ []))
      ⊎ (c'.calls ≡ c.calls ++ on_solution_rejected delay (m.id - 40) ∷ []))

abbrev pub Called : Message → Client → Client → Type 0
Called m c c' =
    (c'.calls ≡ c.calls)
    ⊎ (((m.id ≡ 1) × (c'.calls ≡ c.calls ++ on_connected ∷ []))
        ⊎ ((40 ≤ m.id) × (m.id ≤ c.stratum.solution_submitted_max_id) × Reported m c c'))

report-Reported :
    (m : Message) (accepted : Bool) (delay : ℕ) (stale : Bool) (c : Client)
    → Reported m c (report accepted delay (m.id - 40) stale c)
report-Reported m true delay stale c = (delay, inl (stale, refl))
report-Reported m false delay stale c = (delay, inr refl)

reply_kind-solution :
    (max_id id : ℕ) → reply_kind max_id id ≡ to_solution → (40 ≤ id) × (id ≤ max_id)
unfolding reply_kind
reply_kind-solution max_id id e = ground (arith, e)

reply_kind-first : (max_id id : ℕ) → reply_kind max_id id ≡ to_login → id ≡ 1
unfolding reply_kind
reply_kind-first max_id id e = ground (arith, e)

after_write-calls :
    (s : Option ℕ) (session : Session) (c : Client) (f : Client → Client)
    → ((x : Client) → (f x).calls ≡ x.calls)
    → Holds (λ c'. c'.calls ≡ c.calls) (after_write s session c f)
after_write-calls none session c f kept = tt
after_write-calls (some start) session c f kept = kept (record c { session = session })

given_up-calls : (b : Bool) (c : Client) → (if b then c else give_up c).calls ≡ c.calls
given_up-calls true c = refl
given_up-calls false c = refl

on_999-calls : (m : Message) (c : Client) → (on_999 m c).calls ≡ c.calls
unfolding on_999
on_999-calls m c = ground arith

Uncalled : Client → Outcome → Type 0
Uncalled c o = Holds (λ c'. c'.calls ≡ c.calls) o

Uncalled-Called :
    (m : Message) (c : Client) (o : Outcome) → Uncalled c o → Holds (λ c'. Called m c c') o
unfolding Uncalled
Uncalled-Called m c o h = Holds-weaken o (λ c' same. inl same) h

on_session_id-Uncalled : (m : Message) (now : ℕ) (c : Client) → Uncalled c (on_session_id m now c)
unfolding on_session_id Uncalled
on_session_id-Uncalled m now c =
    Holds-if (λ c'. c'.calls ≡ c.calls) (has_text_result m) _ (returns _)
      (after_write-calls _ _ (dequeued now c).1 _ (λ x. refl)) refl

on_worker_id-Uncalled : (m : Message) (now : ℕ) (c : Client) → Uncalled c (on_worker_id m now c)
unfolding on_worker_id Uncalled
on_worker_id-Uncalled m now c =
    Holds-if (λ c'. c'.calls ≡ c.calls) (m.error_is_empty && has_text_result m) _ (returns _)
      (after_write-calls _ _ _ (λ x. x) (λ x. refl)) refl

on_authorized-Uncalled : (m : Message) (now : ℕ) (c : Client) → Uncalled c (on_authorized m now c)
unfolding on_authorized Uncalled
on_authorized-Uncalled m now c =
    after_write-calls _ _ _ _ (λ x. given_up-calls (result_succeeds m) x)

on_notification-Uncalled :
    (method : Method) (m : Message) (c : Client) → Uncalled c (on_notification method m c)
unfolding Uncalled
on_notification-Uncalled method m c =
    Holds-weaken (on_notification method m c) (λ c' same. same.same_calls)
      (on_notification-SameLogin method m c)

on_submitted-Reported :
    (m : Message) (now : ℕ) (c : Client)
    → Reported m c (if mode_of c == 3 then on_submitted2 m now c else on_submitted m now c)
unfolding on_submitted on_submitted2
on_submitted-Reported m now c = elim (Bool-cases (mode_of c == 3)) [
  | inl e ↦
      let stale = not m.error_is_empty && get_or m.error_code 0 0 == b'2' in
      rw e (report-Reported m (m.error_is_empty || stale) _ stale (dequeued now c).1)
  | inr e ↦ rw e (report-Reported m (result_succeeds m) _ false (dequeued now c).1)
]

on_reply-Called :
    (kind : ReplyKind) (m : Message) (minute now : ℕ) (c : Client)
    → reply_kind c.stratum.solution_submitted_max_id m.id ≡ kind
    → Holds (λ c'. Called m c c') (on_reply kind m minute now c)
unfolding on_reply Uncalled
on_reply-Called to_login m minute now c e =
    elim (on_login_response-LoginMade m minute now c).called [
      | inl same ↦ inl same
      | inr connected ↦ inr (inl (reply_kind-first _ _ e, connected))
    ]
on_reply-Called to_second m minute now c e =
    Uncalled-Called m c _
      (Holds-if _ (mode_of c == 3) _ (returns c) (on_session_id-Uncalled m now c) refl)
on_reply-Called to_third m minute now c e = Uncalled-Called m c _ (
    Holds-if _ (mode_of c == 3) _ _ (on_worker_id-Uncalled m now c)
      (on_authorized-Uncalled m now c))
on_reply-Called to_solution m minute now c e =
    let (low, high) = reply_kind-solution _ _ e in
    inr (inr (low, high, on_submitted-Reported m now c))
on_reply-Called to_get_work m minute now c e = Uncalled-Called m c _ (
    Holds-if _ (mode_of c == 1 && m.result.is_array) _ (returns c)
      (on_notification-Uncalled mining_notify m c) refl)
on_reply-Called to_hashrate m minute now c e = inl refl
on_reply-Called to_nothing m minute now c e = inl (on_999-calls m c)
on_reply-Called unknown_id m minute now c e = inl refl

-- A message makes one call at most: of `m_onConnected`, for a response with id 1, or one that
-- accepts or rejects a solution, for a response whose id is between 40 and the greatest that a
-- solution has been submitted with; the miner's index is the id less 40.
pub process_response-Called :
    (m : Message) (minute now : ℕ) (c : Client)
    → Holds (λ c'. Called m c c') (process_response m minute now c)
unfolding process_response
process_response-Called m minute now c =
    let P : Client → Type 0 = λ c'. Called m c c' in
    Holds-if P (is_invalid m) (returns (post_disconnect c)) _ (inl refl) (
      Holds-if P (is_notification m) _ _
        (Uncalled-Called m c _ (on_notification-Uncalled (method_or_notify m.method m c) m c))
        (on_reply-Called (reply_kind c.stratum.solution_submitted_max_id m.id) m minute now c refl))
