-- ===== src/Stratum/Response/Jobs.antt =====
-- libpoolprotocols/stratum/EthStratumClient.cpp: a job is announced in a session only.
use firominer.Stratum.Response.Settings.{
  extranonce_or_disconnect, on_set_difficulty, on_set_extranonce,
}
use firominer.Stratum.Response.Settings.{
  mining_set_fields, on_session, on_mining_set, on_set_target,
}
use firominer.Stratum.Response.Replies.{report, has_text_result, after_write, on_session_id}
use firominer.Stratum.Response.Replies.{result_succeeds, on_authorized, on_worker_id, on_submitted}
use firominer.Stratum.Response.Replies.{on_submitted2, on_999, dequeued}
use firominer.Stratum.Response.{
  Session, post_disconnect, give_up, Method, MiningSet, Message, Client,
}
use firominer.Stratum.Response.{Outcome, is_some, is_subscribed, mode_of, is_confirmed, no_method}
use firominer.Stratum.Response.{
  mining_notify, mining_set_difficulty, mining_set_extranonce, mining_set,
}
use firominer.Stratum.Response.{
  mining_set_target, mining_bye, client_get_version, other_method, returns,
}
use firominer.Stratum.Response.{throws, aborts}
use firominer.Stratum.Response.Process.{ReplyKind, reply_kind, on_reply, is_notification}
use firominer.Stratum.Response.Process.{method_or_notify, is_invalid, process_response, to_login}
use firominer.Stratum.Response.Process.{to_second, to_third, to_solution, to_get_work, to_hashrate}
use firominer.Stratum.Response.Process.{to_nothing, unknown_id, notice, on_notification}
use firominer.Stratum.Response.Notices.{on_mining_notify, on_mining_notify2}
use firominer.Base.{
  ℕ, Bool, true, false, not, ◌&&◌, ◌==◌, if◌then◌else◌, List, Option, none, some, ◌≡◌,
}
use firominer.Base.{refl, arith, Bool-cases, inl, inr, ◌⊎◌}
use firominer.Stratum.Response.Phases.{on_login_response-LoginMade}
use firominer.Stratum.Response.Kept.{Holds, Holds-if, Holds-weaken}

-- A message announces no job, or the client has a session.
abbrev pub Announced : Client → Client → Type 0
Announced c c' = (c'.new_job_processed ≡ c.new_job_processed) ⊎ (is_some c.stratum.session ≡ true)

abbrev JobKept : Client → Outcome → Type 0
JobKept c o = Holds (λ c'. c'.new_job_processed ≡ c.new_job_processed) o

JobKept-Announced : (c : Client) (o : Outcome) → JobKept c o → Holds (Announced c) o
JobKept-Announced c o h = Holds-weaken o (λ c' same. inl same) h

-- Whatever a call does in a session.
in_session : (c : Client) (o : Outcome) → is_some c.stratum.session ≡ true → Holds (Announced c) o
in_session c (returns c') h = inr h
in_session c (throws c') h = inr h
in_session c aborts h = tt

is_subscribed-session : (c : Client) → is_subscribed c ≡ true → is_some c.stratum.session ≡ true
unfolding is_subscribed
is_subscribed-session c e = ground (arith, e)

on_mining_notify-Announced : (m : Message) (c : Client) → Holds (Announced c) (on_mining_notify m c)
unfolding on_mining_notify
on_mining_notify-Announced m c = elim (Bool-cases (is_subscribed c)) [
  | inl e ↦ in_session c _ (is_subscribed-session c e)
  | inr e ↦ rw e (inl refl)
]

on_mining_notify2-Announced :
    (m : Message) (c : Client) → Holds (Announced c) (on_mining_notify2 m c)
unfolding on_mining_notify2
on_mining_notify2-Announced m c = elim (Bool-cases (is_some c.stratum.session)) [
  | inl e ↦ in_session c _ e
  | inr e ↦ rw e (inl refl)
]

extranonce-JobKept : (enonce : List ℕ) (c : Client) → JobKept c (extranonce_or_disconnect enonce c)
unfolding extranonce_or_disconnect
extranonce-JobKept enonce c = ground arith

mining_set_fields-JobKept : (p : MiningSet) (c : Client) → JobKept c (mining_set_fields p c)
unfolding mining_set_fields extranonce_or_disconnect
mining_set_fields-JobKept p c = ground arith

on_mining_set-JobKept : (m : Message) (c : Client) → JobKept c (on_mining_set m c)
unfolding on_mining_set
on_mining_set-JobKept m c =
    let valid = m.has_params && (m.mining_set_params.is_object && not m.params.is_empty) in
    Holds-if _ valid _ (returns c)
      (on_its_session c.stratum.session _ (mining_set_fields-JobKept m.mining_set_params c)) refl
  where
    on_its_session : (s : Option ℕ) (o : Outcome) → JobKept c o → JobKept c (on_session s o)
    on_its_session none o h = tt
    on_its_session (some start) o h = h

notice-Announced :
    (method : Method) (m : Message) (c : Client) → Holds (Announced c) (notice method m c)
unfolding notice
notice-Announced mining_notify m c =
    Holds-if (Announced c) (mode_of c == 3) _ _ (on_mining_notify2-Announced m c)
      (on_mining_notify-Announced m c)
notice-Announced mining_set_difficulty m c =
    JobKept-Announced c _
      (Holds-if _ (mode_of c == 2) _ (returns c) (unfold on_set_difficulty in ground arith) refl)
notice-Announced mining_set_extranonce m c =
    let taken = extranonce-JobKept (m.params.as_string 0) c in
    JobKept-Announced c _ (
      Holds-if _ (mode_of c == 2) _ (returns c)
        (unfold on_set_extranonce in Holds-if _ m.params.is_array _ (returns c) taken refl) refl)
notice-Announced mining_set m c =
    JobKept-Announced c _
      (Holds-if _ (mode_of c == 3) _ (returns c) (on_mining_set-JobKept m c) refl)
notice-Announced mining_set_target m c =
    JobKept-Announced c _ (unfold on_set_target in ground arith)
notice-Announced mining_bye m c = ground arith
notice-Announced client_get_version m c = inl refl
notice-Announced no_method m c = inl refl
notice-Announced other_method m c = inl refl

on_notification-Announced :
    (method : Method) (m : Message) (c : Client) → Holds (Announced c) (on_notification method m c)
unfolding on_notification
on_notification-Announced method m c =
    Holds-if (Announced c) (is_confirmed c) _ (returns c) (notice-Announced method m c) (inl refl)

given_up-job :
    (b : Bool) (c : Client) → (if b then c else give_up c).new_job_processed ≡ c.new_job_processed
given_up-job true c = refl
given_up-job false c = refl

after_write-JobKept :
    (s : Option ℕ) (session : Session) (c : Client) (f : Client → Client)
    → ((x : Client) → (f x).new_job_processed ≡ x.new_job_processed)
    → JobKept c (after_write s session c f)
after_write-JobKept none session c f kept = tt
after_write-JobKept (some start) session c f kept = kept (record c { session = session })

report-job :
    (accepted : Bool) (delay midx : ℕ) (stale : Bool) (c : Client)
    → (report accepted delay midx stale c).new_job_processed ≡ c.new_job_processed
report-job true delay midx stale c = refl
report-job false delay midx stale c = refl

on_submitted-job :
    (m : Message) (now : ℕ) (c : Client)
    → (if mode_of c == 3 then on_submitted2 m now c else on_submitted m now c).new_job_processed
      ≡ c.new_job_processed
unfolding on_submitted on_submitted2
on_submitted-job m now c = elim (Bool-cases (mode_of c == 3)) [
  | inl e ↦ rw e (report-job _ _ _ _ (dequeued now c).1)
  | inr e ↦ rw e (report-job _ _ _ _ (dequeued now c).1)
]

on_reply-Announced :
    (kind : ReplyKind) (m : Message) (minute now : ℕ) (c : Client)
    → Holds (Announced c) (on_reply kind m minute now c)
unfolding on_reply
on_reply-Announced to_login m minute now c =
    inl (on_login_response-LoginMade m minute now c).same_job
on_reply-Announced to_second m minute now c =
    let written = after_write-JobKept _ _ (dequeued now c).1 _ (λ x. refl) in
    JobKept-Announced c _ (
      Holds-if _ (mode_of c == 3) _ (returns c)
        (unfold on_session_id in Holds-if _ (has_text_result m) _ (returns _) written refl) refl)
on_reply-Announced to_third m minute now c = JobKept-Announced c _ (
    Holds-if _ (mode_of c == 3) _ _
      (unfold on_worker_id in
        Holds-if _ (m.error_is_empty && has_text_result m) _ (returns _)
          (after_write-JobKept _ _ _ (λ x. x) (λ x. refl)) refl)
      (unfold on_authorized in
        after_write-JobKept _ _ _ _ (λ x. given_up-job (result_succeeds m) x)))
on_reply-Announced to_solution m minute now c = inl (on_submitted-job m now c)
on_reply-Announced to_get_work m minute now c =
    Holds-if (Announced c) (mode_of c == 1 && m.result.is_array) _ (returns c)
      (on_notification-Announced mining_notify m c) (inl refl)
on_reply-Announced to_hashrate m minute now c = inl refl
on_reply-Announced to_nothing m minute now c = inl (unfold on_999 in ground arith)
on_reply-Announced unknown_id m minute now c = inl refl

-- A message announces a job only on a client that has a session.
pub process_response-Announced :
    (m : Message) (minute now : ℕ) (c : Client)
    → Holds (Announced c) (process_response m minute now c)
unfolding process_response
process_response-Announced m minute now c =
    Holds-if (Announced c) (is_invalid m) (returns (post_disconnect c)) _ (inl refl) (
      Holds-if (Announced c) (is_notification m) _ _
        (on_notification-Announced (method_or_notify m.method m c) m c)
        (on_reply-Announced (reply_kind c.stratum.solution_submitted_max_id m.id) m minute now c))
