-- ===== src/Miner.antt =====
-- libethcore/Miner.h and Miner.cpp: the work package, the reasons for a pause, and the calls that
-- the farm makes on a miner. A `h256` is the number below 2 ^ 256 that its bytes spell, big endian
-- first, as `operator<` of FixedHash compares them; `h256()` is 0. `kick_miner` is virtual: a call
-- of it is counted.
pub mod Flags
pub mod Pause
pub mod Epoch
use firominer.Base.{ℕ, ◌+◌, Bool, true, false, Option, none, some, String, ltb, ◌==◌, if◌then◌else◌}
use firominer.Worker.{Worker, new_worker}
use Flags.{PauseFlags, MinerPauseEnum, no_flags, set_flag, reset_flag, test, any}

pub record WorkPackage : Type 0 where
  pub job : String
  pub boundary : ℕ
  pub header : ℕ
  pub seed : ℕ
  pub block_boundary : ℕ
  pub epoch : Option ℕ
  pub block : Option ℕ
  pub start_nonce : ℕ
  pub ex_size_bytes : ℕ
  pub algo : String

-- The default work package.
abbrev pub no_work : WorkPackage
no_work = record {
  job = "";
  boundary = 0;
  header = 0;
  seed = 0;
  block_boundary = 0;
  epoch = none;
  block = none;
  start_nonce = 0;
  ex_size_bytes = 0;
  algo = "progpow";
}

-- `explicit operator bool`.
abbrev pub is_work : WorkPackage → Bool
is_work wp = if wp.header == 0 then false else true

unfoldable pub get_boundary : WorkPackage → ℕ
get_boundary wp =
    if wp.block_boundary == 0
    then wp.boundary
    else if ltb wp.boundary wp.block_boundary
    then wp.block_boundary
    else wp.boundary

-- `epoch_number` of the miner's epoch context, if it has one.
pub record Miner : Type 0 where
  pub index : ℕ
  pub worker : Worker
  pub epoch_context : Option ℕ
  pub pause_flags : PauseFlags
  pub work : WorkPackage
  pub hash_rate_update : Bool
  pub kicks : ℕ

-- The constructor.
unfoldable pub new_miner : ℕ → Miner
new_miner index = record {
  index = index;
  worker = new_worker;
  epoch_context = none;
  pause_flags = no_flags;
  work = no_work;
  hash_rate_update = false;
  kicks = 0;
}

abbrev pub kick_miner : Miner → Miner
kick_miner m = record m { kicks = m.kicks + 1 }

unfoldable pub paused : Miner → Bool
paused m = any m.pause_flags

unfoldable pub set_work : Miner → WorkPackage → Miner
unfolding paused
set_work m wp =
    kick_miner (
      if paused m then record m { work = record m.work { header = 0 } } else record m { work = wp })

unfoldable pub set_epoch : Miner → ℕ → Miner
set_epoch m ec = record m { epoch_context = some ec }

unfoldable pub pause : Miner → MinerPauseEnum → Miner
unfolding set_flag
pause m what =
    kick_miner
      (record m { pause_flags = set_flag what m.pause_flags; work = record m.work { header = 0 } })

unfoldable pub pause_test : Miner → MinerPauseEnum → Bool
unfolding test
pause_test m what = test what m.pause_flags

unfoldable pub resume : Miner → MinerPauseEnum → Miner
unfolding reset_flag
resume m from_what = record m { pause_flags = reset_flag from_what m.pause_flags }

-- `TriggerHashRateUpdate`: whether the rate is set to 0, since the miner did not answer the last
-- trigger, and the miner after it.
unfoldable pub trigger_hash_rate_update : Miner → Bool × Miner
trigger_hash_rate_update m =
    if m.hash_rate_update then (true, m) else (false, record m { hash_rate_update = true })
