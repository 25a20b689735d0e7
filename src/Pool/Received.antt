-- ===== src/Pool/Received.antt =====
-- libpoolprotocols/PoolManager.cpp: a work package on its way to the farm, and a solution on its
-- way to the pool.
use firominer.Base.{◌&&◌, if◌then◌else◌, ℕ, ◌≡◌, Bool, false}
use firominer.Base.{Option, none, some, ◌∷◌, arith, ◌||◌}
use firominer.Miner.{WorkPackage}
use firominer.Farm.Proof.{Solution, Verifiers, valid_solution, submit_proof_async}
use firominer.Pool.{Manager, submits, is_connected}
use firominer.Pool.Handlers.{epoch_or, on_solution_found}

-- The package as it is saved.
abbrev pub with_epoch_of : WorkPackage → ℕ → WorkPackage
with_epoch_of wp block = record wp { epoch = epoch_or wp.epoch block }

-- The handler of the farm, where the call of `submitProofAsync` makes it.
abbrev pub hand_on : Manager → Option Solution → Manager
hand_on m none = m
hand_on m (some s) = on_solution_found m s

-- A solution of a miner through the farm's evaluation and the manager's handler.
unfoldable pub solution_arrives : Verifiers → Manager → Solution → ℕ → Manager
unfolding submit_proof_async on_solution_found
solution_arrives v m s now =
    let r = submit_proof_async v m.farm s now in hand_on (record m { farm = r.farm }) r.found

abbrev pub is_valid : Option Bool → Bool
is_valid (some b) = b
is_valid none = false

-- A miner's solution is submitted to the pool exactly if the client is connected, and the farm does
-- not evaluate solutions or the verification of this one comes to `kOk`. Nothing else is asked of
-- the client in any case.
pub solution_arrives_lem :
    (v : Verifiers) (m : Manager) (s : Solution) (now : ℕ)
    → let m' = solution_arrives v m s now in
      let good = m.farm.settings.no_eval || is_valid (valid_solution v m.farm s) in
      m'.requests ≡ (if is_connected m && good then submits s ∷ m.requests else m.requests)
unfolding solution_arrives
solution_arrives_lem v m s now = ground arith
