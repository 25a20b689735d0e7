-- ===== src/Getwork/Response.antt =====
-- libpoolprotocols/getwork/EthGetworkClient.cpp: `processResponse`. A response is what JsonCpp
-- answers to the code's questions about it. The two functions of libcrypto/ethash are parameters,
-- and so is the text of a header.
use firominer.Base.{ℕ, ◌-◌, Bool, ◌&&◌, ◌||◌, not, List, Option, none, some, String, leb, ◌==◌}
use firominer.Base.{if◌then◌else◌}
use firominer.Miner.{WorkPackage, no_work}
use firominer.Stratum.Response.{hash_of_text}
use firominer.Getwork.{Getwork, request_id, called_work_received, called_accepted, called_rejected}
use firominer.Getwork.{Continuation, goes_on, ends_process, add_call}

-- The members of a result of `getblocktemplate`, the numbers as `strtoul` reads them.
pub record Template : Type 0 where
  pub is_complete : Bool
  pub header : List ℕ
  pub epoch : ℕ
  pub bits : ℕ
  pub target : List ℕ
  pub height : ℕ

pub record NodeResponse : Type 0 where
  pub has_id : Bool
  pub error_is_empty : Bool
  -- The result is there, and an object.
  pub has_result_object : Bool
  pub template : Template
  pub result_converts_to_bool : Bool
  pub result_as_bool : Bool

abbrev pub set_timer : ℕ → Getwork → Getwork
set_timer delay g = record g { timer = some delay }

-- The new work, if its header is not that of the current one.
unfoldable pub take_work : ℕ → WorkPackage → Getwork → Getwork
take_work now wp g =
    if g.current.header == wp.header
    then g
    else add_call (called_work_received wp) (record g { current = wp; current_tstamp = now })

module _ (seed_of_epoch : ℕ → ℕ) (target_of_bits : ℕ → ℕ) (hex : ℕ → String)
    (farm_recheck_period : ℕ) where
  -- The work of a template, from the header and the target as hashes.
  abbrev pub template_work : Template → ℕ → ℕ → WorkPackage
  template_work t header boundary = record no_work {
    header = header;
    epoch = some t.epoch;
    seed = seed_of_epoch t.epoch;
    block_boundary = target_of_bits t.bits;
    boundary = boundary;
    block = some t.height;
    job = hex header;
  }

  -- A text that is not hexadecimal throws, and nothing catches it.
  abbrev pub hashed : Option ℕ → (ℕ → Continuation) → Continuation
  hashed none k = ends_process
  hashed (some h) k = k h

  -- The answer to `getblocktemplate`.
  unfoldable pub on_template : NodeResponse → ℕ → Getwork → Continuation
  unfolding hash_of_text take_work
  on_template m now g =
      let t = m.template in
      let again = set_timer farm_recheck_period in
      let taken = hashed (hash_of_text t.header) (λ header.
        hashed (hash_of_text t.target)
          (λ boundary. goes_on (again (take_work now (template_work t header boundary) g)))) in
      if not m.error_is_empty
      then goes_on (set_timer 30000 g)
      else if not m.has_result_object
      then goes_on g
      else if t.is_complete
      then taken
      else goes_on (again g)

  -- The answer to a solution.
  abbrev pub solution_succeeds : NodeResponse → Bool
  solution_succeeds m =
      if m.error_is_empty && m.result_converts_to_bool then m.result_as_bool else m.error_is_empty

  abbrev pub on_solution_answer : NodeResponse → ℕ → ℕ → Getwork → Getwork
  on_solution_answer m id now g =
      let delay = now - g.pending_tstamp in
      if solution_succeeds m
      then add_call (called_accepted delay (id - 40)) g
      else add_call (called_rejected delay (id - 40)) g

  -- `processResponse`, by the id of the request that was made last.
  unfoldable pub process_node_response : NodeResponse → ℕ → Getwork → Continuation
  unfolding on_template
  process_node_response m now g =
      let id = request_id g.pending_request in
      let answered = on_solution_answer m id now g in
      if not m.has_id
      then goes_on g
      else if id == 0 || id == 1
      then on_template m now g
      else if id == 9
      then goes_on g
      else goes_on (if leb 40 id && leb id g.solution_submitted_max_id then answered else g)
