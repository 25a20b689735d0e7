-- ===== src/Farm/Proof.antt =====
-- libethcore/Farm.cpp: `accountSolution`, `getSolutions` and `submitProofAsync`. The verification
-- of a solution, in libcrypto, is a parameter.
use firominer.Base.{
  ℕ, ◌+◌, ◌%◌, ◌^◌, ◌<◌, ◌≡◌, ◌≢◌, refl, Bool, true, false, Option, none, some, length,
}
use firominer.Base.{get_elem?, set, if◌then◌else◌, str_eq, get_elem?_lt, get_elem?-set_self}
use firominer.Base.{get_elem?-set_ne, arith, sym}
use firominer.Miner.{WorkPackage}
use firominer.Farm.Solutions.{is_accepted, is_rejected, is_wasted, SolutionAccounting, is_failed}
use firominer.Farm.Solutions.{SolutionAccount, no_solutions, account, counter}
use firominer.Farm.{Farm, TelemetryAccount}
use mathlib.Core.Option

pub record Solution : Type 0 where
  pub nonce : ℕ
  pub mix_hash : ℕ
  pub work : WorkPackage
  pub midx : ℕ

pub data VerificationResult : Type 0 where
  ok invalid_nonce invalid_mix_hash : VerificationResult

-- The two verifications: of a solution against the context of an epoch, and against its block.
pub record Verifiers : Type 0 where
  pub ethash : ℕ → Solution → VerificationResult
  pub progpow : ℕ → Solution → VerificationResult

abbrev pub account_telemetry : SolutionAccounting → ℕ → TelemetryAccount → TelemetryAccount
account_telemetry acc now t = record t { solutions = account acc now t.solutions }

-- `m_telemetry.miners.at(index)` throws out of range, after the farm's own account has changed.
abbrev pub account_miner : Farm → ℕ → SolutionAccounting → ℕ → Option TelemetryAccount → Farm × Bool
account_miner f midx acc now none = (f, true)
account_miner f midx acc now (some t) = (
  record f { telemetry_miners = set f.telemetry_miners midx (account_telemetry acc now t) },
  false,
)

-- `accountSolution`: the farm after it, and whether it throws.
unfoldable pub account_solution : Farm → ℕ → SolutionAccounting → ℕ → Farm × Bool
unfolding account
account_solution f midx acc now =
    account_miner (record f { farm_solutions = account acc now f.farm_solutions }) midx acc now
      (get_elem? f.telemetry_miners midx)

abbrev solutions_of : Option TelemetryAccount → SolutionAccount
solutions_of none = no_solutions
solutions_of (some t) = t.solutions

-- `getSolutions` of one miner.
unfoldable pub get_solutions_of : Farm → ℕ → SolutionAccount
get_solutions_of f midx = solutions_of (get_elem? f.telemetry_miners midx)

abbrev pub is_ok : VerificationResult → Bool
is_ok ok = true
is_ok _ = false

-- `validSolution` before the test of it. `none` is a fault: the null epoch context is read, or
-- `block.value()` throws.
unfoldable pub valid_solution : Verifiers → Farm → Solution → Option Bool
valid_solution v f s =
    if str_eq s.work.algo "ethash"
    then Option.map (λ ec. is_ok (v.ethash ec s)) f.current_ec
    else if str_eq s.work.algo "progpow"
    then Option.map (λ block. is_ok (v.progpow block s)) s.work.block
    else some false

-- What a call of `submitProofAsync` leaves: the farm, whether it fails with an exception or a
-- fault, and the solution that was handed to `m_onSolutionFound`.
pub record Submitted : Type 0 where
  pub farm : Farm
  pub failed : Bool
  pub found : Option Solution

abbrev pub submit_checked : Farm → Solution → ℕ → Option Bool → Submitted
submit_checked f s now none = record { farm = f; failed = true; found = none }
submit_checked f s now (some true) = record { farm = f; failed = false; found = some s }
submit_checked f s now (some false) =
    let r = account_solution f s.midx is_failed now in
    record { farm = r.0; failed = r.1; found = none }

unfoldable pub submit_proof_async : Verifiers → Farm → Solution → ℕ → Submitted
unfolding account_solution valid_solution
submit_proof_async v f s now =
    if f.settings.no_eval
    then record { farm = f; failed = false; found = some s }
    else submit_checked f s now (valid_solution v f s)

counter-account :
    (acc : SolutionAccounting) (now : ℕ) (a : SolutionAccount)
    → counter acc (account acc now a) ≡ (counter acc a + 1) % 2 ^ 32
unfolding account
counter-account is_accepted now a = refl
counter-account is_rejected now a = refl
counter-account is_wasted now a = refl
counter-account is_failed now a = refl

counter-account_ne :
    (acc other : SolutionAccounting) (now : ℕ) (a : SolutionAccount)
    → other ≢ acc
    → counter other (account acc now a) ≡ counter other a
unfolding account
counter-account_ne is_accepted other now a ne = ground arith
counter-account_ne is_rejected other now a ne = ground arith
counter-account_ne is_wasted other now a ne = ground arith
counter-account_ne is_failed other now a ne = ground arith

module _ (f : Farm) (midx : ℕ) (acc : SolutionAccounting) (now : ℕ) (t : TelemetryAccount)
    (known : get_elem? f.telemetry_miners midx ≡ some t)
    (h : midx < length f.telemetry_miners) where
  abbrev accounted : Farm
  accounted = record f {
    farm_solutions = account acc now f.farm_solutions;
    telemetry_miners = set f.telemetry_miners midx (account_telemetry acc now t);
  }

  account_solution-known : account_solution f midx acc now ≡ (accounted, false)
  unfolding account_solution
  account_solution-known = rw known refl

  get_solutions_of_self : get_solutions_of accounted midx ≡ account acc now t.solutions
  unfolding get_solutions_of
  get_solutions_of_self =
      rw (get_elem?-set_self f.telemetry_miners midx (account_telemetry acc now t) h) refl

  get_solutions_of-known : get_solutions_of f midx ≡ t.solutions
  unfolding get_solutions_of
  get_solutions_of-known = rw known refl

  get_solutions_of-other :
      (other : ℕ) → other ≢ midx → get_solutions_of accounted other ≡ get_solutions_of f other
  unfolding get_solutions_of
  get_solutions_of-other other ne =
      rw
        (get_elem?-set_ne f.telemetry_miners midx other (account_telemetry acc now t)
          (λ e. ne (sym e)))
        refl

-- The account of a solution of a known miner does not throw. It adds one, with wrap-around at
-- 2 ^ 32, to the one counter of the farm and of that miner; the other three counters of both, and
-- the accounts of all other miners, stay.
pub account_solution_lem :
    (f : Farm) (midx : ℕ) (acc other : SolutionAccounting) (now another : ℕ)
    → midx < length f.telemetry_miners
    → other ≢ acc
    → another ≢ midx
    → let r = account_solution f midx acc now in
      (r.1 ≡ false)
      × (counter acc r.0.farm_solutions ≡ (counter acc f.farm_solutions + 1) % 2 ^ 32)
      × (counter acc (get_solutions_of r.0 midx)
          ≡ (counter acc (get_solutions_of f midx) + 1) % 2 ^ 32)
      × (counter other r.0.farm_solutions ≡ counter other f.farm_solutions)
      × (counter other (get_solutions_of r.0 midx) ≡ counter other (get_solutions_of f midx))
      × (get_solutions_of r.0 another ≡ get_solutions_of f another)
account_solution_lem f midx acc other now another h other_kind other_miner =
    let (t, known) = get_elem?_lt f.telemetry_miners midx h in
    rw
      (
        account_solution-known f midx acc now t known h,
        get_solutions_of_self f midx acc now t known h,
        get_solutions_of-known f midx acc now t known h,
      )
      (
        refl,
        counter-account acc now f.farm_solutions,
        counter-account acc now t.solutions,
        counter-account_ne acc other now f.farm_solutions other_kind,
        counter-account_ne acc other now t.solutions other_kind,
        get_solutions_of-other f midx acc now t known h another other_miner,
      )
