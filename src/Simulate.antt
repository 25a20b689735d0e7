-- ===== src/Simulate.antt =====
-- libpoolprotocols/testing/SimulateClient.h and SimulateClient.cpp: the client that simulates a
-- pool, and its work loop; the hash rates that it averages are left out. The verification of a
-- solution, which libcrypto has, is an argument: a call is `verified` or not. Times are in
-- milliseconds, that of a session in minutes.
pub mod Jobs
use firominer.Base.{
  ℕ, suc, ◌+◌, ◌-◌, ◌/◌, Bool, true, false, List, [], ◌∷◌, ◌++◌, Option, none, some,
}
use firominer.Base.{if◌then◌else◌, length}
use firominer.Miner.{WorkPackage, no_work}
use firominer.Worker.{Worker, start_working}

pub data SimulateCall : Type 0 where
  sim_connected sim_disconnected : SimulateCall
  sim_work_received : WorkPackage → SimulateCall
  sim_accepted sim_rejected : ℕ → ℕ → SimulateCall

pub record Simulate : Type 0 where
  pub worker : Worker
  pub connected : Bool
  -- The minute that the session started at, where there is one.
  pub session : Option ℕ
  pub total_duration : ℕ
  pub solution_arrived : Bool
  pub block : ℕ
  -- `current` of the work loop.
  pub current : WorkPackage
  pub calls : List SimulateCall

abbrev pub sim_call : SimulateCall → Simulate → Simulate
sim_call x s = record s { calls = s.calls ++ x ∷ [] }

-- `connect`.
unfoldable pub sim_connect : ℕ → Simulate → Simulate
sim_connect minute s =
    let s1 = sim_call sim_connected (record s { connected = true; session = some minute }) in
    record s1 { worker = start_working s1.worker }

-- `disconnect`; nothing is a null pointer.
unfoldable pub sim_disconnect : ℕ → Simulate → Option Simulate
sim_disconnect minute s = elim s.session [
  | none ↦ none
  | some start ↦ some (
      sim_call sim_disconnected (record s {
        total_duration = s.total_duration + (minute - start);
        session = none;
        connected = false;
      }))
]

-- `submitSolution`, for a miner's index, with the time the verification takes.
unfoldable pub sim_submit_solution : Bool → ℕ → ℕ → Simulate → Simulate
sim_submit_solution verified delay midx s =
    let s1 = record s { solution_arrived = true } in
    if verified
    then sim_call (sim_accepted delay midx) s1
    else sim_call (sim_rejected delay midx) s1

module _ (epoch_length : ℕ) (seed_of_epoch : ℕ → ℕ) (difficulty_boundary : ℕ) where
  -- A job of a block, with a random header.
  abbrev pub sim_job : ℕ → ℕ → WorkPackage → WorkPackage
  sim_job header block wp = record wp {
    block = some block;
    epoch = some (block / epoch_length);
    seed = seed_of_epoch (block / epoch_length);
    header = header;
  }

  abbrev pub give_job : WorkPackage → Simulate → Simulate
  give_job wp s = sim_call (sim_work_received wp) (record s { current = wp })

  -- `workLoop` up to its loop. `float m_difficulty` counts through its boundary alone.
  unfoldable pub sim_start : ℕ → Simulate → Simulate
  sim_start header s =
      give_job
        (record (sim_job header s.block no_work) {
          boundary = difficulty_boundary;
          block_boundary = difficulty_boundary;
          algo = "progpow";
        })
        s

  -- A round of the loop, with a random header; nothing is done without a session.
  unfoldable pub sim_round : ℕ → Simulate → Simulate
  sim_round header s =
      let s1 = record s { solution_arrived = false; block = suc s.block } in
      let renewed = give_job (sim_job header s1.block s1.current) s1 in
      elim s.session [ none ↦ s | some start ↦ if s.solution_arrived then renewed else s ]
