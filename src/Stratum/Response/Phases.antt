-- ===== src/Stratum/Response/Phases.antt =====
-- libpoolprotocols/stratum/EthStratumClient.cpp: `processResponse` refines the login of the stratum
-- protocols: what each of them knows of a session, and the responses that change it.
use firominer.Stratum.Response.{
  send, mining_authorize, on_connected, post_disconnect, give_up, Message,
}
use firominer.Stratum.Response.{Client, protocol, mode_of, is_confirmed}
use firominer.Stratum.Response.Login.{take_extranonce, on_login_response, start_session, log_in}
use firominer.Stratum.Response.Login.{
  subscribe, await_authorization, refuse_login, given_extranonce,
}
use firominer.Stratum.Response.Login.{authorize_with, login_by}
use firominer.Stratum.Response.Replies.{dequeued}
use firominer.Stratum.Response.Kept.{SameLogin}
use firominer.Stratum.Pleas.{dequeue_response_plea, enqueue_response_plea}
use firominer.Stratum.Extranonce.{
  process_extranonce, StratumMode, stratum, ethproxy, ethereumstratum,
}
use firominer.Stratum.Extranonce.{ethereumstratum2}
use firominer.Base.{◌++◌, sym, subst, if◌then◌else◌, ℕ, Bool, true, false, not, ◌&&◌, List, [], ◌∷◌}
use firominer.Base.{Option, none, some, ◌≡◌, refl, arith, inl, inr, ◌⊎◌}

-- What a login knows of its session: none, or one of a mode, with whether the worker is subscribed
-- and authorized.
pub data Phase : Type 0 where
  offline : Phase
  online : ℕ → Bool → Bool → Phase

-- The phase a client is in.
abbrev pub phase_at : Option ℕ → ℕ → Bool → Bool → Phase
phase_at none mode subscribed authorized = offline
phase_at (some start) mode subscribed authorized = online mode subscribed authorized

abbrev pub phase : Client → Phase
phase c = phase_at c.stratum.session (mode_of c) c.session.subscribed c.session.authorized

-- The steps of a login, by the id of the response that makes them.
pub data LoginStep : ℕ → Phase → Phase → Type 0 where
  stays : {id : ℕ} {p : Phase} → LoginStep id p p
  -- A new session, with the first response, by its mode.
  starts_stratum : {id : ℕ} {p : Phase} → id ≡ 1 → LoginStep id p (online 0 true false)
  starts_proxy : {id : ℕ} {p : Phase} → id ≡ 1 → LoginStep id p (online 1 true true)
  starts_nicehash : {id : ℕ} {p : Phase} → id ≡ 1 → LoginStep id p (online 2 true false)
  starts_hello : {id : ℕ} {p : Phase} → id ≡ 1 → LoginStep id p (online 3 false false)
  -- EthereumStratum/2.0.0 has a response of its own to the subscription.
  subscribes :
      {id mode : ℕ} {subscribed authorized : Bool}
      → id ≡ 2
      → mode ≡ 3
      → LoginStep id (online mode subscribed authorized) (online mode true authorized)
  authorizes :
      {id mode : ℕ} {subscribed authorized answer : Bool}
      → id ≡ 3
      → LoginStep id (online mode subscribed authorized) (online mode subscribed answer)

pub step_to : {id : ℕ} {p q r : Phase} → LoginStep id p q → r ≡ q → LoginStep id p r
step_to {id} {p} s e = subst (LoginStep id p) (sym e) s

-- What the response to the first request makes of the phase.
abbrev pub Started : Phase → Phase → Type 0
Started p q =
    (q ≡ p)
    ⊎ ((q ≡ online 0 true false)
        ⊎ ((q ≡ online 1 true true) ⊎ ((q ≡ online 2 true false) ⊎ (q ≡ online 3 false false))))

Started-LoginStep : {id : ℕ} {p q : Phase} → id ≡ 1 → Started p q → LoginStep id p q
Started-LoginStep one (inl e) = step_to stays e
Started-LoginStep one (inr (inl e)) = step_to (starts_stratum one) e
Started-LoginStep one (inr (inr (inl e))) = step_to (starts_proxy one) e
Started-LoginStep one (inr (inr (inr (inl e)))) = step_to (starts_nicehash one) e
Started-LoginStep one (inr (inr (inr (inr e)))) = step_to (starts_hello one) e

abbrev pub LoginCalled : Client → Client → Type 0
LoginCalled c c' = (c'.calls ≡ c.calls) ⊎ (c'.calls ≡ c.calls ++ on_connected ∷ [])

-- What the response to the first request makes of a client.
pub record LoginMade (c c' : Client) : Type 0 where
  pub started : Started (phase c) (phase c')
  pub called : LoginCalled c c'
  pub same_job : c'.new_job_processed ≡ c.new_job_processed

-- The end of a connection is no part of its login yet.
abbrev Kept : Client → Client → Type 0
Kept c c' =
    (phase c' ≡ phase c) × (c'.calls ≡ c.calls) × (c'.new_job_processed ≡ c.new_job_processed)

Kept-if : (c : Client) (b : Bool) (x y : Client) → Kept c x → Kept c y → Kept c (if b then x else y)
Kept-if c true x y hx hy = hx
Kept-if c false x y hx hy = hy

refuse_login-Kept : (c : Client) → Kept c (refuse_login c)
unfolding refuse_login
refuse_login-Kept c =
    Kept-if c (is_confirmed c) (give_up c) (post_disconnect c) (refl, refl, refl) (refl, refl, refl)

authorize_with-Kept : (enonce : List ℕ) (c : Client) → Kept c (authorize_with enonce c)
unfolding authorize_with
authorize_with-Kept [] c = (refl, refl, refl)
authorize_with-Kept (x ∷ xs) c =
    Kept-if c (process_extranonce (x ∷ xs) c.session.nonce).0
      (send mining_authorize (take_extranonce (x ∷ xs) c)) (post_disconnect c) (refl, refl, refl)
      (refl, refl, refl)

login_by-LoginMade :
    (protocol : Option StratumMode) (m : Message) (minute now : ℕ) (c : Client)
    → LoginMade c (login_by protocol m minute now c)
unfolding login_by start_session enqueue_response_plea
login_by-LoginMade (some ethereumstratum2) m minute now c = ground (arith, refuse_login-Kept c)
login_by-LoginMade (some ethereumstratum) m minute now c = ground (arith, refuse_login-Kept c)
login_by-LoginMade (some ethproxy) m minute now c = ground (arith, refuse_login-Kept c)
login_by-LoginMade (some stratum) m minute now c =
    let logged = await_authorization now (subscribe (log_in 0 minute c)) in
    ground (arith, refuse_login-Kept c, authorize_with-Kept (given_extranonce m) logged)
login_by-LoginMade none m minute now c = record {
  started = inl refl;
  called = inl refl;
  same_job = refl;
}

LoginMade-if :
    (c : Client) (b : Bool) (x y : Client)
    → LoginMade c x
    → LoginMade c y
    → LoginMade c (if b then x else y)
LoginMade-if c true x y hx hy = hx
LoginMade-if c false x y hx hy = hy

-- The response pleas are no part of the login.
pub dequeue-SameLogin : (now : ℕ) (c : Client) → SameLogin c (dequeued now c).1
unfolding dequeue_response_plea
dequeue-SameLogin now c = by_queue c.stratum.response_plea_times
  where
    by_queue :
        (ts : List ℕ)
        → SameLogin c (record c {
          stratum = (dequeue_response_plea now (record (c.stratum) { response_plea_times = ts })).1;
        })
    by_queue [] = ground arith
    by_queue (t ∷ ts) = ground arith

pub SameLogin-phase : {c c' : Client} → SameLogin c c' → phase c' ≡ phase c
SameLogin-phase h = rw (h.same_session, h.same_conn, h.same_subscribed, h.same_authorized) refl

pub on_login_response-LoginMade :
    (m : Message) (minute now : ℕ) (c : Client) → LoginMade c (on_login_response m minute now c)
unfolding on_login_response
on_login_response-LoginMade m minute now c =
    let c1 = (dequeued now c).1 in
    let same = SameLogin-phase (dequeue-SameLogin now c) in
    let answered = login_by (protocol (mode_of c1)) m minute now c1 in
    let tried = login_by-LoginMade (protocol (mode_of c1)) m minute now c1 in
    let failed = not m.error_is_empty && not (is_confirmed c1) in
    LoginMade-if c failed (post_disconnect c1) answered
      (record { started = inl same; called = inl refl; same_job = refl })
      (record {
        started = subst (λ p. Started p (phase answered)) same tried.started;
        called = tried.called;
        same_job = tried.same_job;
      })

pub on_login_response-LoginStep :
    (m : Message) (minute now : ℕ) (c : Client)
    → m.id ≡ 1
    → LoginStep m.id (phase c) (phase (on_login_response m minute now c))
on_login_response-LoginStep m minute now c one =
    Started-LoginStep one (on_login_response-LoginMade m minute now c).started
