-- ===== src/Getwork/Answers.antt =====
-- libpoolprotocols/getwork/EthGetworkClient.cpp: what the answers of the node do.
use firominer.Base.{
  ℕ, ◌+◌, ◌-◌, true, false, ◌&&◌, ◌||◌, ◌==◌, leb, ltb, if◌then◌else◌, List, [], ◌∷◌,
}
use firominer.Base.{◌++◌, some, ◌≡◌, refl, ap, ◌∙◌, arith, ◌⊎◌, inl, inr, String, Bool-cases}
use firominer.Base.{Option-cases}
use firominer.Stratum.Response.{hash_of_text}
use firominer.Getwork.{Getwork, submit_block, goes_on, ends_process, called_work_received}
use firominer.Getwork.{called_accepted, called_rejected, connects_to, writes_request}
use firominer.Getwork.Connect.{
  handle_connect, succeeded, begin_connect, submit_to_node, send_request,
}
use firominer.Getwork.Response.{
  NodeResponse, take_work, template_work, on_template, solution_succeeds,
}
use firominer.Getwork.Response.{on_solution_answer, process_node_response}

module _ (seed_of_epoch : ℕ → ℕ) (target_of_bits : ℕ → ℕ) (hex : ℕ → String)
    (farm_recheck_period : ℕ) where
  -- A complete template without an error, whose header and target are hashes: the work of the
  -- client has that header, the next request is set for the farm's period, and `m_onWorkReceived`
  -- is called, with the work of the template, exactly if its header is another than before.
  pub on_template-work :
      (m : NodeResponse) (now header boundary : ℕ) (g : Getwork)
      → m.error_is_empty ≡ true
      → m.has_result_object ≡ true
      → m.template.is_complete ≡ true
      → hash_of_text m.template.header ≡ some header
      → hash_of_text m.template.target ≡ some boundary
      → let wp =
          template_work seed_of_epoch target_of_bits hex farm_recheck_period m.template header
            boundary in
        (g' : Getwork) × (on_template seed_of_epoch target_of_bits hex farm_recheck_period m now g
          ≡ goes_on g')
        × (g'.current.header ≡ header)
        × (g'.timer ≡ some farm_recheck_period)
        × (g'.calls ≡ (
            if g.current.header == header
            then g.calls
            else g.calls ++ called_work_received wp ∷ []))
  unfolding on_template take_work
  on_template-work m now header boundary g no_error has_result complete has_header has_target =
      elim (Bool-cases (g.current.header == header)) [
        | inl same ↦
            rw (no_error, has_result, complete, has_header, has_target, same)
              (_, refl, ground (arith, same), refl, refl)
        | inr new ↦
            rw (no_error, has_result, complete, has_header, has_target, new)
              (_, refl, refl, refl, refl)
      ]

  -- The answer to a template leaves the timer set, unless it has neither an error nor an object as
  -- its result: then the client is as it was. Or it ends the process.
  pub on_template-timer :
      (m : NodeResponse) (now : ℕ) (g : Getwork)
      → let answer = on_template seed_of_epoch target_of_bits hex farm_recheck_period m now g in
        (answer ≡ ends_process)
        ⊎ (((g' : Getwork) × (answer ≡ goes_on g') × (delay : ℕ) × (g'.timer ≡ some delay))
            ⊎ ((answer ≡ goes_on g) × (m.error_is_empty ≡ true) × (m.has_result_object ≡ false)))
  unfolding on_template
  on_template-timer m now g = elim (Bool-cases m.error_is_empty) [
    | inr error ↦ rw error (inr (inl (_, refl, _, refl)))
    | inl no_error ↦ elim (Bool-cases m.has_result_object) [
      | inr missing ↦ rw (no_error, missing) (inr (inr (refl, refl, refl)))
      | inl found ↦ elim (Bool-cases m.template.is_complete) [
        | inr part ↦ rw (no_error, found, part) (inr (inl (_, refl, _, refl)))
        | inl whole ↦ elim (Option-cases (hash_of_text m.template.header)) [
          | inl bad ↦ rw (no_error, found, whole, bad) (inl refl)
          | inr (header, h) ↦ elim (Option-cases (hash_of_text m.template.target)) [
            | inl bad ↦ rw (no_error, found, whole, h, bad) (inl refl)
            | inr (target, t) ↦ rw (no_error, found, whole, h, t) (inr (inl (_, refl, _, refl)))
          ]
        ]
      ]
    ]
  ]

  answer-calls :
      (m : NodeResponse) (id now : ℕ) (g : Getwork)
      → (on_solution_answer seed_of_epoch target_of_bits hex farm_recheck_period m id now g).calls
        ≡ g.calls
          ++ (if solution_succeeds seed_of_epoch target_of_bits hex farm_recheck_period m
              then called_accepted (now - g.pending_tstamp) (id - 40)
              else called_rejected (now - g.pending_tstamp) (id - 40))
            ∷ []
  answer-calls m id now g =
      let accepted = solution_succeeds seed_of_epoch target_of_bits hex farm_recheck_period m in
      elim (Bool-cases accepted) [ inl e ↦ rw e refl | inr e ↦ rw e refl ]

  -- A solution that is submitted to a node in a session, with no request under way: the connection
  -- that succeeds then, and the response to it, whatever id it has, report the solution for its
  -- miner, with the time since the request as the delay.
  pub submit_to_node-process_node_response :
      (midx e t1 t2 minute : ℕ) (es : List ℕ) (start : ℕ) (header mix nonce : List ℕ)
      (m : NodeResponse) (g : Getwork)
      → g.session ≡ some start
      → g.connecting ≡ false
      → g.tx_pending ≡ false
      → g.tx_queue ≡ []
      → g.endpoints ≡ e ∷ es
      → m.has_id ≡ true
      → (g1 : Getwork) × (submit_to_node false minute midx header mix nonce g ≡ goes_on g1)
        × (g2 : Getwork) × (handle_connect succeeded minute t1 g1 ≡ goes_on g2)
        × (g2.pending_request ≡ some (submit_block (40 + midx) header mix nonce))
        × (g3 : Getwork) × (process_node_response seed_of_epoch target_of_bits hex
              farm_recheck_period m t2 g2
            ≡ goes_on g3)
        × (g3.calls
            ≡ g.calls
              ++ (if solution_succeeds seed_of_epoch target_of_bits hex farm_recheck_period m
                  then called_accepted (t2 - t1) midx
                  else called_rejected (t2 - t1) midx)
                ∷ [])
  submit_to_node-process_node_response midx e t1 t2 minute es start header mix nonce m g session
        connected idle empty reachable has_id =
      let id = 40 + midx in
      let high : ℕ =
        if ltb g.solution_submitted_max_id id then id else g.solution_submitted_max_id in
      let request = submit_block id header mix nonce in
      let g1 : Getwork = record g {
        solution_submitted_max_id = high;
        tx_queue = request ∷ [];
        tx_pending = true;
        operation = connects_to e;
      } in
      let g2 : Getwork = record g1 {
        tx_queue = [];
        pending_request = some request;
        pending_tstamp = t1;
        operation = writes_request request;
      } in
      let other : (id == 0 || id == 1) ≡ false = ground arith in
      let no_hashrate : (id == 9) ≡ false = ground arith in
      let submitted : (leb 40 id && leb id high) ≡ true = ground arith in
      let index : 40 + midx - 40 ≡ midx = omega arith in
      let queued : submit_to_node false minute midx header mix nonce g ≡ goes_on g1 =
        unfold submit_to_node send_request begin_connect in
        rw (session, idle, empty, reachable) refl in
      let written : handle_connect succeeded minute t1 g1 ≡ goes_on g2 =
        unfold handle_connect in rw connected refl in
      (
        g1,
        queued,
        g2,
        written,
        refl,
        on_solution_answer seed_of_epoch target_of_bits hex farm_recheck_period m id t2 g2,
        unfold process_node_response in rw (has_id, other, no_hashrate, submitted) refl,
        answer-calls m id t2 g2
            ∙ ap
                (λ i.
                  g.calls
                  ++ (if solution_succeeds seed_of_epoch target_of_bits hex farm_recheck_period m
                      then called_accepted (t2 - t1) i
                      else called_rejected (t2 - t1) i)
                    ∷ [])
                index,
      )
