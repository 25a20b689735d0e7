-- ===== src/Getwork/Queue.antt =====
-- libpoolprotocols/getwork/EthGetworkClient.cpp: a request waits only behind one that is under way.
use firominer.Getwork.{
  no_operation, Getwork, GetworkRequest, get_block_template, Continuation, goes_on,
}
use firominer.Getwork.{ends_process}
use firominer.Getwork.Connect.{
  end_session, disconnect_node, connect_first, begin_connect, send_request,
}
use firominer.Getwork.Connect.{connect_node, handle_resolve, Completion, drop_endpoint, write_next}
use firominer.Getwork.Connect.{open_session, handle_connect, handle_write, getwork_timer_elapsed}
use firominer.Getwork.Connect.{submit_to_node, succeeded, failed, cancelled}
use firominer.Base.{
  ℕ, Bool, true, false, ◌||◌, if◌then◌else◌, List, [], ◌∷◌, Option, none, some, ◌≡◌,
}
use firominer.Base.{refl, arith, ◌⊎◌, inl, inr, Bool-cases, ltb, ◌-◌, ◌/◌}

-- The request that a client waits with has another before it, under way.
abbrev pub QueueSound : Getwork → Type 0
QueueSound g = (g.tx_pending ≡ true) ⊎ (g.tx_queue ≡ [])

abbrev pub Remains : (Getwork → Type 0) → Continuation → Type 0
Remains P (goes_on g) = P g
Remains P ends_process = Unit

pub disconnect_node-QueueSound :
    (minute : ℕ) (g : Getwork) → Remains QueueSound (disconnect_node minute g)
unfolding disconnect_node
disconnect_node-QueueSound minute g = by_session g.session
  where
    by_session : (s : Option ℕ) → Remains QueueSound (end_session minute s g)
    by_session none = tt
    by_session (some start) = inr refl

pub begin_connect-QueueSound :
    (minute : ℕ) (g : Getwork) → QueueSound g → Remains QueueSound (begin_connect minute g)
unfolding begin_connect connect_first
begin_connect-QueueSound minute g h = by_endpoints g.endpoints
  where
    by_endpoints : (es : List ℕ) → Remains QueueSound (connect_first minute es g)
    by_endpoints [] = disconnect_node-QueueSound minute g
    by_endpoints (e ∷ es) = h

drop_endpoint-QueueSound :
    (es : List ℕ) (minute : ℕ) (g : Getwork)
    → QueueSound g
    → Remains QueueSound (drop_endpoint es g (begin_connect minute))
drop_endpoint-QueueSound [] minute g h = tt
drop_endpoint-QueueSound (e ∷ es) minute g h = begin_connect-QueueSound minute _ h

drop_endpoint-disconnect :
    (es : List ℕ) (minute : ℕ) (g : Getwork)
    → Remains QueueSound (drop_endpoint es g (disconnect_node minute))
drop_endpoint-disconnect [] minute g = tt
drop_endpoint-disconnect (e ∷ es) minute g = disconnect_node-QueueSound minute _

pub Remains-if :
    (P : Getwork → Type 0) (b : Bool) (x y : Continuation)
    → Remains P x
    → Remains P y
    → Remains P (if b then x else y)
Remains-if P true x y hx hy = hx
Remains-if P false x y hx hy = hy

-- The request waits behind another, or is the first.
send_request-QueueSound :
    (minute : ℕ) (x : GetworkRequest) (g : Getwork)
    → Remains QueueSound (send_request false minute x g)
unfolding send_request
send_request-QueueSound minute x g = by_pending g.tx_pending
  where
    by_pending :
        (b : Bool) → Remains QueueSound (send_request false minute x (record g { tx_pending = b }))
    by_pending true = inl refl
    by_pending false = begin_connect-QueueSound minute _ (inl refl)

write_next-QueueSound :
    (now : ℕ) (xs : List GetworkRequest) (g : Getwork)
    → g.tx_queue ≡ xs
    → QueueSound g
    → QueueSound (write_next now xs g)
write_next-QueueSound now [] g e h = inr e
write_next-QueueSound now (x ∷ xs) g e (inl pending) = inl pending
write_next-QueueSound now (x ∷ xs) g e (inr empty) = absurd (ground (arith, e, empty))

open_session-kept :
    (minute now : ℕ) (g : Getwork)
    → let g1 = open_session minute now g in
      (g1.tx_queue ≡ g.tx_queue) × (g1.tx_pending ≡ g.tx_pending)
open_session-kept minute now g = elim (Bool-cases g.connecting) [
  | inl e ↦ rw e (refl, refl)
  | inr e ↦ rw e (refl, refl)
]

pub handle_connect-QueueSound :
    (how : Completion) (minute now : ℕ) (g : Getwork)
    → QueueSound g
    → Remains QueueSound (handle_connect how minute now g)
unfolding handle_connect
handle_connect-QueueSound succeeded minute now g h =
    let g0 = record g { operation = no_operation } in
    let (queue, pending) = open_session-kept minute now g0 in
    write_next-QueueSound now _ (open_session minute now g0) refl
      (ground (arith, queue, pending, h))
handle_connect-QueueSound failed minute now g h = drop_endpoint-QueueSound g.endpoints minute _ h
handle_connect-QueueSound cancelled minute now g h = h

pub handle_write-QueueSound :
    (how : Completion) (minute : ℕ) (g : Getwork)
    → QueueSound g
    → Remains QueueSound (handle_write how minute g)
unfolding handle_write
handle_write-QueueSound succeeded minute g h = h
handle_write-QueueSound failed minute g h = drop_endpoint-QueueSound g.endpoints minute _ h
handle_write-QueueSound cancelled minute g h = h

pub getwork_timer_elapsed-QueueSound :
    (worktimeout minute now : ℕ) (g : Getwork)
    → Remains QueueSound (getwork_timer_elapsed worktimeout minute now g)
unfolding getwork_timer_elapsed
getwork_timer_elapsed-QueueSound worktimeout minute now g =
    Remains-if QueueSound (ltb worktimeout ((now - g.current_tstamp) / 1000)) _ _
      (drop_endpoint-disconnect g.endpoints minute _)
      (send_request-QueueSound minute get_block_template _)

pub connect_node-QueueSound :
    (minute address : ℕ) (g : Getwork)
    → QueueSound g
    → Remains QueueSound (connect_node false minute address g)
unfolding connect_node
connect_node-QueueSound minute address g h =
    Remains-if QueueSound (g.connecting || false) (goes_on g) _ h (
      Remains-if QueueSound g.needs_resolver (goes_on _) _ h
        (send_request-QueueSound minute get_block_template _))

pub handle_resolve-QueueSound :
    (minute : ℕ) (found : Option (List ℕ)) (g : Getwork)
    → Remains QueueSound (handle_resolve minute found g)
unfolding handle_resolve
handle_resolve-QueueSound minute none g = disconnect_node-QueueSound minute _
handle_resolve-QueueSound minute (some found) g = send_request-QueueSound minute _ _

pub submit_to_node-QueueSound :
    (minute midx : ℕ) (header mix nonce : List ℕ) (g : Getwork)
    → QueueSound g
    → Remains QueueSound (submit_to_node false minute midx header mix nonce g)
unfolding submit_to_node
submit_to_node-QueueSound minute midx header mix nonce g h = by_session g.session
  where
    by_session :
        (s : Option ℕ)
        → Remains QueueSound
            (submit_to_node false minute midx header mix nonce (record g { session = s }))
    by_session none = h
    by_session (some start) = send_request-QueueSound minute _ _
