-- ===== src/Farm.antt =====
-- libethcore/Farm.h and Farm.cpp: the collection of miners, the work they share, and the account
-- of their solutions. A call that locks `x_minerWork` is one step.
pub mod Solutions
pub mod Work
pub mod Nonces
pub mod Mining
pub mod Proof
pub mod Data
pub mod WellFormed
pub mod Calls
pub mod Restart
pub mod Scrambler
use firominer.Base.{
  ℕ, suc, ◌+◌, Bool, true, false, Option, none, some, List, [], ◌∷◌, ◌++◌, map, String,
}
use firominer.Base.{length, if◌then◌else◌}
use firominer.Worker.{start_working, trigger_stop_working}
use firominer.Miner.{Miner, WorkPackage, no_work, new_miner, kick_miner}
use firominer.Miner.Flags.{MinerPauseEnum, farm_paused}
use firominer.Miner.Epoch.{DagLoad, set_dag_load_info}
use Solutions.{SolutionAccount, no_solutions}
use firominer.Miner

pub data DeviceSubscriptionType : Type 0 where
  unsubscribed opencl cuda cpu : DeviceSubscriptionType

pub record FarmSettings : Type 0 where
  pub dag_load_mode : ℕ
  pub no_eval : Bool
  pub hw_mon : ℕ
  pub ergodicity : ℕ
  pub temp_start : ℕ
  pub temp_stop : ℕ

-- Which of ETH_ETHASHCUDA, ETH_ETHASHCL and ETH_ETHASHCPU are set in the build.
pub record Build : Type 0 where
  pub with_cuda : Bool
  pub with_cl : Bool
  pub with_cpu : Bool

-- The part of a `TelemetryAccountType` that is not a measured rate.
pub record TelemetryAccount : Type 0 where
  pub prefix : String
  pub is_paused : Bool
  pub temp_c : ℕ
  pub solutions : SolutionAccount

pub record Farm : Type 0 where
  pub settings : FarmSettings
  pub is_paused : Bool
  pub is_mining : Bool
  pub miners : List Miner
  pub current_wp : WorkPackage
  pub current_ec : Option ℕ
  pub farm_solutions : SolutionAccount
  pub telemetry_miners : List TelemetryAccount
  pub dag_load : DagLoad
  pub nonce_scrambler : ℕ
  pub nonce_segment_width : ℕ
  pub draws : ℕ

-- What `start` puts into `m_telemetry.miners` for a device, if the build has its kind of miner.
abbrev pub prefix_of : Build → DeviceSubscriptionType → Option String
prefix_of b unsubscribed = none
prefix_of b cuda = if b.with_cuda then some "cu" else none
prefix_of b opencl = if b.with_cl then some "cl" else none
prefix_of b cpu = if b.with_cpu then some "cp" else none

abbrev pub new_account : String → TelemetryAccount
new_account prefix = record {
  prefix = prefix;
  is_paused = false;
  temp_c = 0;
  solutions = no_solutions;
}

abbrev pub start_miner : Miner → Miner
start_miner m = record m { worker = start_working m.worker }

abbrev pub stop_miner : Miner → Miner
stop_miner m = kick_miner (record m { worker = trigger_stop_working m.worker })

abbrev pub add_miner : Farm → Option String → Farm
add_miner f none = f
add_miner f (some prefix) = record f {
  miners = f.miners ++ start_miner (new_miner (length f.miners)) ∷ [];
  telemetry_miners = f.telemetry_miners ++ new_account prefix ∷ [];
}

-- The loop of `start` over the devices.
unfoldable pub add_miners : Build → Farm → List DeviceSubscriptionType → Farm
add_miners b f [] = f
add_miners b f (d ∷ ds) = add_miners b (add_miner f (prefix_of b d)) ds

abbrev pub after_creation : Farm → Farm
after_creation f = record f {
  dag_load = set_dag_load_info f.settings.dag_load_mode (length f.miners);
  is_mining = true;
}

abbrev pub start_with : Build → List DeviceSubscriptionType → Farm → List Miner → Farm
start_with b devices f [] = after_creation (add_miners b f devices)
start_with b devices f (m ∷ ms) = record f { miners = map start_miner (m ∷ ms); is_mining = true }

-- `Farm::start`; its result is `m_isMining`, which is true after it.
unfoldable pub start : Build → List DeviceSubscriptionType → Farm → Farm
unfolding add_miners
start b devices f = if f.is_mining then f else start_with b devices f f.miners

-- `Farm::stop`: each miner is told to stop and is kicked, then all are let go.
unfoldable pub stop : Farm → Farm
stop f = if f.is_mining then record f { miners = []; is_mining = false } else f

-- What `stop` does to a miner before it lets go of it.
unfoldable pub stopped_miners : Farm → List Miner
stopped_miners f = if f.is_mining then map stop_miner f.miners else []

unfoldable pub pause : Farm → Farm
pause f = record f { is_paused = true; miners = map (λ m. Miner.pause m farm_paused) f.miners }

unfoldable pub resume : Farm → Farm
resume f = record f { is_paused = false; miners = map (λ m. Miner.resume m farm_paused) f.miners }

unfoldable pub set_t_start_t_stop : Farm → ℕ → ℕ → Farm
set_t_start_t_stop f t_start t_stop = record f {
  settings = record f.settings { temp_start = t_start; temp_stop = t_stop };
}

-- `shuffle`: the scrambler is the next draw of the random device.
unfoldable pub shuffle : (ℕ → ℕ) → Farm → Farm
shuffle random f = record f { nonce_scrambler = random f.draws; draws = suc f.draws }

-- The constructor.
unfoldable pub new_farm : (ℕ → ℕ) → FarmSettings → Farm
unfolding shuffle
new_farm random settings = shuffle random (record {
  settings = settings;
  is_paused = false;
  is_mining = false;
  miners = [];
  current_wp = no_work;
  current_ec = none;
  farm_solutions = no_solutions;
  telemetry_miners = [];
  dag_load = set_dag_load_info 0 0;
  nonce_scrambler = 0;
  nonce_segment_width = 32;
  draws = 0;
})
