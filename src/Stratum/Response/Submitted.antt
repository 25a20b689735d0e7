-- ===== src/Stratum/Response/Submitted.antt =====
-- libpoolprotocols/stratum/EthStratumClient.cpp: a solution that is submitted, and its answer.
use firominer.Stratum.Response.{Message, Call, Client, is_authorized, on_stratum, protocol, mode_of}
use firominer.Stratum.Response.{on_solution_accepted, on_solution_rejected, returns}
use firominer.Stratum.Response.Replies.{
  dequeued, result_succeeds, report, on_submitted, on_submitted2,
}
use firominer.Stratum.Response.Process.{reply_kind, on_reply, is_notification, is_invalid}
use firominer.Stratum.Response.Process.{process_response, to_solution}
use firominer.Base.{
  ℕ, Bool, true, false, not, ◌||◌, ◌&&◌, ◌+◌, ◌-◌, ◌==◌, if◌then◌else◌, get_or, [],
}
use firominer.Base.{◌∷◌, ◌++◌, ◌≡◌, ◌∙◌, ap, refl, arith, Bool-cases, inl, inr}
use firominer.Stratum.Extranonce.{StratumMode, Submission, submit_solution}
use firominer.Stratum.Pleas.{enqueue_response_plea}

-- The client after `submitSolution`.
abbrev pub submitted : StratumMode → ℕ → Submission → Client → Client
submitted mode now x c = on_stratum (λ s. (submit_solution (is_authorized c) mode now x s).1) c

-- Whether an answer means that the solution is stale, and whether that it is accepted, by mode.
abbrev pub is_stale : ℕ → Message → Bool
is_stale mode m =
    if mode == 3 then not m.error_is_empty && get_or m.error_code 0 0 == b'2' else false

abbrev pub is_accepted : ℕ → Message → Bool
is_accepted mode m = if mode == 3 then m.error_is_empty || is_stale mode m else result_succeeds m

abbrev pub answer_call : Bool → ℕ → ℕ → Bool → Call
answer_call accepted delay midx stale =
    if accepted then on_solution_accepted delay midx stale else on_solution_rejected delay midx

submitted-reply_kind :
    (mode : StratumMode) (now : ℕ) (x : Submission) (c : Client)
    → is_authorized c ≡ true
    → reply_kind (submitted mode now x c).stratum.solution_submitted_max_id (40 + x.midx)
      ≡ to_solution
unfolding reply_kind submit_solution enqueue_response_plea
submitted-reply_kind mode now x c authorized = rw authorized (ground arith)

submitted-kept :
    (mode : StratumMode) (now : ℕ) (x : Submission) (c : Client)
    → (mode_of (submitted mode now x c) ≡ mode_of c)
unfolding submit_solution enqueue_response_plea
submitted-kept mode now x c = elim (Bool-cases (is_authorized c)) [
  | inl e ↦ rw e refl
  | inr e ↦ rw e refl
]

report-calls :
    (accepted : Bool) (delay midx : ℕ) (stale : Bool) (c : Client)
    → (report accepted delay midx stale c).calls
      ≡ c.calls ++ answer_call accepted delay midx stale ∷ []
report-calls true delay midx stale c = refl
report-calls false delay midx stale c = refl

-- The answer to a solution, by the mode.
answered-calls :
    (m : Message) (now : ℕ) (c : Client)
    → (delay : ℕ) × ((if mode_of c == 3 then on_submitted2 m now c else on_submitted m now c).calls
        ≡ c.calls
          ++ answer_call (is_accepted (mode_of c) m) delay (m.id - 40) (is_stale (mode_of c) m)
            ∷ [])
unfolding on_submitted on_submitted2
answered-calls m now c = elim (Bool-cases (mode_of c == 3)) [
  | inl e ↦ rw e (
      let stale = not m.error_is_empty && get_or m.error_code 0 0 == b'2' in
      (
        (dequeued now c).0,
        report-calls (m.error_is_empty || stale) (dequeued now c).0 (m.id - 40) stale
            (dequeued now c).1,
      ))
  | inr e ↦ rw e (
    (dequeued now c).0,
    report-calls (result_succeeds m) (dequeued now c).0 (m.id - 40) false (dequeued now c).1,
  )
]

-- The response with the id of a solution that an authorized client has submitted reports it, once,
-- for the miner that found it: as accepted or rejected by what the answer says in the mode of the
-- connection. Other solutions may have been submitted before.
pub submit_solution-process_response :
    (protocol : StratumMode) (sent_at minute now : ℕ) (x : Submission) (m : Message) (c : Client)
    → is_authorized c ≡ true
    → m.id ≡ 40 + x.midx
    → is_invalid m ≡ false
    → is_notification m ≡ false
    → let mode = mode_of c in
      (c' : Client) × (process_response m minute now (submitted protocol sent_at x c) ≡ returns c')
      × (delay : ℕ) × (c'.calls
          ≡ c.calls ++ answer_call (is_accepted mode m) delay x.midx (is_stale mode m) ∷ [])
unfolding process_response on_reply
submit_solution-process_response protocol sent_at minute now x m c authorized id valid reply =
    let c1 = submitted protocol sent_at x c in
    let kind : reply_kind c1.stratum.solution_submitted_max_id m.id ≡ to_solution =
      ap (reply_kind c1.stratum.solution_submitted_max_id) id
      ∙ submitted-reply_kind protocol sent_at x c authorized in
    let index : m.id - 40 ≡ x.midx = omega (arith, id) in
    let (delay, called) = answered-calls m now c1 in
    let mode = submitted-kept protocol sent_at x c in
    (
      if mode_of c1 == 3 then on_submitted2 m now c1 else on_submitted m now c1,
      rw (valid, reply, kind) refl,
      delay,
      called
          ∙ ap
              (λ i.
                c.calls
                ++ answer_call (is_accepted (mode_of c1) m) delay i (is_stale (mode_of c1) m) ∷ [])
              index
          ∙ ap (λ n. c.calls ++ answer_call (is_accepted n m) delay x.midx (is_stale n m) ∷ [])
              mode,
    )
