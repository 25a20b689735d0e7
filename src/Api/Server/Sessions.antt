-- ===== src/Api/Server/Sessions.antt =====
-- libapicore/ApiServer.cpp: the sessions of the server after any events.
use firominer.Base.{
  ℕ, suc, ◌<◌, ◌≤◌, ◌≡◌, refl, arith, ℤ, Bool, true, false, Option, none, some, List,
}
use firominer.Base.{
  [], ◌∷◌, ◌++◌, All, ◌==◌, if◌then◌else◌, Bool-cases, inl, inr, ◌≢◌, ==_iff, subst,
}
use firominer.Base.{not}
use firominer.Api.Server.{
  Server, new_server, begin_accept, start, handle_accept, on_disconnected, stop,
}
use firominer.Api.Server.{erase_id, accept_when}

-- What happens to a server: it is started once, an accept completes, a session disconnects, or it
-- is stopped.
pub data ServerEvent : Type 0 where
  starts : Bool → Bool → ServerEvent
  accepts : Bool → ServerEvent
  disconnects : ℕ → ServerEvent
  stops : ServerEvent

-- An accept completes only if one is pending.
abbrev pub accept_if : Bool → Server → Option ℕ → Server
accept_if failed v none = v
accept_if failed v (some id) = handle_accept failed id v

unfoldable pub server_step : Server → ServerEvent → Server
unfolding start handle_accept on_disconnected stop
server_step v (starts bound late) = start bound late v
server_step v (accepts failed) = accept_if failed v v.next
server_step v (disconnects id) = on_disconnected id v
server_step v stops = stop v

unfoldable pub server_steps : Server → List ServerEvent → Server
unfolding server_step
server_steps v [] = v
server_steps v (e ∷ es) = server_steps (server_step v e) es

-- Each is greater than the one before it.
abbrev pub Ascending : ℕ → List ℕ → Type 0
Ascending lo [] = Unit {0}
Ascending lo (x ∷ xs) = (lo < x) × Ascending x xs

-- The id that waits, if one does, is the last, and greater than those of the sessions.
abbrev pub Fresh : ℕ → List ℕ → Option ℕ → Type 0
Fresh last ids none = Unit {0}
Fresh last ids (some id) = (id ≡ last) × (0 < id) × All (λ x. x < id) ids

pub record HasSessions (v : Server) : Type 0 where
  pub ascending : Ascending 0 v.sessions
  pub bounded : All (λ x. x ≤ v.last_session_id) v.sessions
  pub fresh : Fresh v.last_session_id v.sessions v.next

All-suc : (k : ℕ) (xs : List ℕ) → All (λ x. x ≤ k) xs → All (λ x. x < suc k) xs
All-suc k [] h = tt
All-suc k (x ∷ xs) h = (omega arith, All-suc k xs h.1)

Ascending-append :
    (lo id : ℕ) (xs : List ℕ)
    → lo < id
    → Ascending lo xs
    → All (λ x. x < id) xs
    → Ascending lo (xs ++ id ∷ [])
Ascending-append lo id [] l h b = (l, tt)
Ascending-append lo id (x ∷ xs) l h b = (h.0, Ascending-append x id xs b.0 h.1 b.1)

All-append_last : (id : ℕ) (xs : List ℕ) → All (λ x. x < id) xs → All (λ x. x ≤ id) (xs ++ id ∷ [])
All-append_last id [] b = (omega arith, tt)
All-append_last id (x ∷ xs) b = (omega arith, All-append_last id xs b.1)

All-erase_id {ℓ} : (P : ℕ → Type ℓ) (id : ℕ) (xs : List ℕ) → All P xs → All P (erase_id id xs)
unfolding erase_id
All-erase_id P id [] h = h
All-erase_id P id (x ∷ xs) h = elim (Bool-cases (x == id)) [
  | inl e ↦ rw e h.1
  | inr e ↦ rw e (h.0, All-erase_id P id xs h.1)
]

Ascending-weaken : (lo x : ℕ) (xs : List ℕ) → lo < x → Ascending x xs → Ascending lo xs
Ascending-weaken lo x [] l h = tt
Ascending-weaken lo x (y ∷ ys) l h = (omega (arith, l, h.0), h.1)

Ascending-erase_id : (lo id : ℕ) (xs : List ℕ) → Ascending lo xs → Ascending lo (erase_id id xs)
unfolding erase_id
Ascending-erase_id lo id [] h = h
Ascending-erase_id lo id (x ∷ xs) h = elim (Bool-cases (x == id)) [
  | inl e ↦ rw e (Ascending-weaken lo x xs h.0 h.1)
  | inr e ↦ rw e (h.0, Ascending-erase_id x id xs h.1)
]

Fresh-erase_id :
    (last id : ℕ) (ids : List ℕ) (o : Option ℕ) → Fresh last ids o → Fresh last (erase_id id ids) o
Fresh-erase_id last id ids none h = tt
Fresh-erase_id last id ids (some n) h = (h.0, h.1, All-erase_id (λ x. x < n) id ids h.2)

All-lt_suc : (k : ℕ) (xs : List ℕ) → All (λ x. x ≤ k) xs → All (λ x. x ≤ suc k) xs
All-lt_suc k [] h = tt
All-lt_suc k (x ∷ xs) h = (omega arith, All-lt_suc k xs h.1)

accept_when-HasSessions :
    (running : Bool) (v : Server)
    → Ascending 0 v.sessions
    → All (λ x. x ≤ v.last_session_id) v.sessions
    → HasSessions (accept_when running v)
accept_when-HasSessions true v a b = record {
  ascending = a;
  bounded = All-lt_suc v.last_session_id v.sessions b;
  fresh = (refl, omega arith, All-suc v.last_session_id v.sessions b);
}
accept_when-HasSessions false v a b = record { ascending = a; bounded = b; fresh = tt }

begin_accept-HasSessions :
    (v : Server)
    → Ascending 0 v.sessions
    → All (λ x. x ≤ v.last_session_id) v.sessions
    → HasSessions (begin_accept v)
unfolding begin_accept
begin_accept-HasSessions v = accept_when-HasSessions v.running v

if-HasSessions :
    (b : Bool) (v v' : Server) → HasSessions v → HasSessions v' → HasSessions (if b then v else v')
if-HasSessions true v v' h h' = h
if-HasSessions false v v' h h' = h'

start-HasSessions :
    (bound late : Bool) (v : Server) → HasSessions v → HasSessions (start bound late v)
unfolding start
start-HasSessions bound late v h =
    let late_begin = begin_accept-HasSessions v h.ascending h.bounded in
    if-HasSessions (v.port == 0) v _ h (
      if-HasSessions (not bound) v _ h (
        if-HasSessions late (record (begin_accept v) { running = true })
          (begin_accept (record v { running = true }))
          (record {
            ascending = late_begin.ascending;
            bounded = late_begin.bounded;
            fresh = late_begin.fresh;
          })
          (begin_accept-HasSessions (record v { running = true }) h.ascending h.bounded)))

-- The session that is accepted is added at the end.
handle_accept-HasSessions :
    (failed : Bool) (v : Server) (id : ℕ)
    → v.next ≡ some id
    → HasSessions v
    → HasSessions (handle_accept failed id v)
unfolding handle_accept
handle_accept-HasSessions true v id e h = begin_accept-HasSessions v h.ascending h.bounded
handle_accept-HasSessions false v id e h =
    let (last, pos, below) = subst (Fresh v.last_session_id v.sessions) e h.fresh in
    begin_accept-HasSessions (record v { sessions = v.sessions ++ id ∷ [] })
      (Ascending-append 0 id v.sessions pos h.ascending below)
      (subst (λ k. All (λ x. x ≤ k) (v.sessions ++ id ∷ [])) last
        (All-append_last id v.sessions below))

stop-HasSessions : (v : Server) → HasSessions v → HasSessions (stop v)
unfolding stop
stop-HasSessions v h =
    if-HasSessions v.running (record v { running = false; sessions = [] }) v
      (record { ascending = tt; bounded = tt; fresh = no_sessions v.next h.fresh }) h
  where
    no_sessions :
        (o : Option ℕ) → Fresh v.last_session_id v.sessions o → Fresh v.last_session_id [] o
    no_sessions none f = tt
    no_sessions (some id) f = (f.0, f.1, tt)

server_step-HasSessions :
    (v : Server) (e : ServerEvent) → HasSessions v → HasSessions (server_step v e)
unfolding server_step on_disconnected
server_step-HasSessions v (starts bound late) h = start-HasSessions bound late v h
server_step-HasSessions v (accepts failed) h = by_next v.next refl
  where
    by_next : (o : Option ℕ) → v.next ≡ o → HasSessions (accept_if failed v o)
    by_next none e = h
    by_next (some id) e = handle_accept-HasSessions failed v id e h
server_step-HasSessions v (disconnects id) h = record {
  ascending = Ascending-erase_id 0 id v.sessions h.ascending;
  bounded = All-erase_id (λ x. x ≤ v.last_session_id) id v.sessions h.bounded;
  fresh = Fresh-erase_id v.last_session_id id v.sessions v.next h.fresh;
}
server_step-HasSessions v stops h = stop-HasSessions v h

steps-HasSessions :
    (v : Server) (es : List ServerEvent) → HasSessions v → HasSessions (server_steps v es)
unfolding server_steps
steps-HasSessions v [] h = h
steps-HasSessions v (e ∷ es) h =
    steps-HasSessions (server_step v e) es (server_step-HasSessions v e h)

erase_id-gone : (lo id : ℕ) (xs : List ℕ) → Ascending lo xs → All (λ x. x ≢ id) (erase_id id xs)
unfolding erase_id
erase_id-gone lo id [] h = tt
erase_id-gone lo id (x ∷ xs) h = elim (Bool-cases (x == id)) [
  | inl e ↦ rw e (above x id xs ((==_iff x id).0 e) h.1)
  | inr e ↦ rw e ((λ q. absurd (ground (arith, e, q))), erase_id-gone x id xs h.1)
]
  where
    above : (x id : ℕ) (xs : List ℕ) → x ≡ id → Ascending x xs → All (λ y. y ≢ id) xs
    above x id [] e h = tt
    above x id (y ∷ ys) e h =
        ((λ q. absurd (omega (arith, h.0))), above x id ys e (Ascending-weaken x y ys h.0 h.1))

-- After any events since its creation, the sessions of a server have ascending ids, so no two the
-- same, and none greater than the last that was given; and a session that disconnects is gone.
pub server_steps-HasSessions :
    (portnum : ℤ) (es : List ServerEvent) (id : ℕ)
    → let v = server_steps (new_server portnum) es in
      HasSessions v × All (λ x. x ≢ id) (on_disconnected id v).sessions
unfolding on_disconnected
server_steps-HasSessions portnum es id =
    let h =
      steps-HasSessions (new_server portnum) es
        (unfold new_server in record { ascending = tt; bounded = tt; fresh = tt }) in
    (h, erase_id-gone 0 id _ h.ascending)
