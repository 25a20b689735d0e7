-- ===== src/Stratum/Pleas.antt =====
-- libpoolprotocols/stratum/EthStratumClient.cpp: the times of requests that have no answer yet.
use firominer.Base.{
  ℕ, ◌+◌, ◌-◌, ◌≡◌, refl, List, [], ◌∷◌, ◌++◌, length, length-append, ltb, ◌==◌, arith,
}
use firominer.Base.{if◌then◌else◌}
use firominer.Stratum.{Stratum}

unfoldable pub enqueue_response_plea : ℕ → Stratum → Stratum
enqueue_response_plea now s = record s {
  response_plea_older = if s.response_pleas_count == 0 then now else s.response_plea_older;
  response_pleas_count = s.response_pleas_count + 1;
  response_plea_times = s.response_plea_times ++ now ∷ [];
}

-- The older plea and the rest of the queue, after a `pop`.
abbrev popped : Stratum → List ℕ → Stratum
popped s [] = s
popped s (t ∷ ts) = record s { response_plea_older = t; response_plea_times = ts }

-- The delay that is reported comes with the client.
unfoldable pub dequeue_response_plea : ℕ → Stratum → ℕ × Stratum
dequeue_response_plea now s =
    let delay = now - s.response_plea_older in
    let s1 = popped s s.response_plea_times in
    if ltb 0 s1.response_pleas_count
    then (delay, record s1 { response_pleas_count = s1.response_pleas_count - 1 })
    else (0, s1)

unfoldable pub clear_response_pleas : ℕ → Stratum → Stratum
clear_response_pleas now s = record s {
  response_pleas_count = 0;
  response_plea_times = [];
  response_plea_older = now;
}

pub data PleaCall : Type 0 where
  enqueues dequeues clears : ℕ → PleaCall

unfoldable pub plea_call : PleaCall → Stratum → Stratum
unfolding enqueue_response_plea dequeue_response_plea clear_response_pleas
plea_call (enqueues now) s = enqueue_response_plea now s
plea_call (dequeues now) s = (dequeue_response_plea now s).1
plea_call (clears now) s = clear_response_pleas now s

unfoldable pub plea_calls : Stratum → List PleaCall → Stratum
unfolding plea_call
plea_calls s [] = s
plea_calls s (c ∷ cs) = plea_calls (plea_call c s) cs

abbrev Counted : Stratum → Type 0
Counted s = s.response_pleas_count ≡ length s.response_plea_times

enqueue-Counted : (now : ℕ) (s : Stratum) → Counted s → Counted (enqueue_response_plea now s)
unfolding enqueue_response_plea
enqueue-Counted now s e = omega (arith, e, length-append s.response_plea_times)

dequeue-Counted : (now : ℕ) (s : Stratum) → Counted s → Counted (dequeue_response_plea now s).1
unfolding dequeue_response_plea
dequeue-Counted now s e = by_queue s.response_plea_times e
  where
    by_queue :
        (ts : List ℕ)
        → s.response_pleas_count ≡ length ts
        → Counted (dequeue_response_plea now (record s { response_plea_times = ts })).1
    by_queue [] e = ground (arith, e)
    by_queue (t ∷ ts) e = ground (arith, e)

plea_call-Counted : (c : PleaCall) (s : Stratum) → Counted s → Counted (plea_call c s)
plea_call-Counted (enqueues now) s e = unfold plea_call in enqueue-Counted now s e
plea_call-Counted (dequeues now) s e = unfold plea_call in dequeue-Counted now s e
plea_call-Counted (clears now) s e = unfold plea_call clear_response_pleas in refl

-- The count of pleas is the length of their queue, after any calls on a client for which it is.
plea_calls-response_pleas_count :
    (s : Stratum) (cs : List PleaCall)
    → s.response_pleas_count ≡ length s.response_plea_times
    → let s' = plea_calls s cs in s'.response_pleas_count ≡ length s'.response_plea_times
unfolding plea_calls
plea_calls-response_pleas_count s [] e = e
plea_calls-response_pleas_count s (c ∷ cs) e =
    plea_calls-response_pleas_count (plea_call c s) cs (plea_call-Counted c s e)

-- Two pleas that wait, at `t1` and then at `t2`, and the answers to both: the first delay is
-- measured from `t1`. So is the second, and not from `t2`, since the older plea that is kept is
-- the one that was answered last.
dequeue_response_plea-twice :
    (s : Stratum) (t1 t2 now1 now2 : ℕ)
    → s.response_pleas_count ≡ 0
    → s.response_plea_times ≡ []
    → let s1 = enqueue_response_plea t2 (enqueue_response_plea t1 s) in
      let r1 = dequeue_response_plea now1 s1 in
      let r2 = dequeue_response_plea now2 r1.1 in
      (r1.0 ≡ now1 - t1) × (r2.0 ≡ now2 - t1) × (r2.1.response_pleas_count ≡ 0)
unfolding enqueue_response_plea dequeue_response_plea
dequeue_response_plea-twice s t1 t2 now1 now2 none_counted none_waiting =
    rw (none_counted, none_waiting) (refl, refl, refl)
