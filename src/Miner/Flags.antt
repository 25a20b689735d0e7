-- ===== src/Miner/Flags.antt =====
-- libethcore/Miner.h: `MinerPauseEnum` and the `bitset` over it, and `pausedString` of Miner.cpp.
use firominer.Base.{
  ◌≡◌, ◌≢◌, refl, Bool, true, false, ◌||◌, List, [], ◌∷◌, String, arith, if◌then◌else◌,
}

pub data MinerPauseEnum : Type 0 where
  overheating api_request farm_paused insufficient_memory init_epoch_error : MinerPauseEnum

pub record PauseFlags : Type 0 where
  pub due_to_overheating : Bool
  pub due_to_api_request : Bool
  pub due_to_farm_paused : Bool
  pub due_to_insufficient_memory : Bool
  pub due_to_init_epoch_error : Bool

abbrev pub no_flags : PauseFlags
no_flags = record {
  due_to_overheating = false;
  due_to_api_request = false;
  due_to_farm_paused = false;
  due_to_insufficient_memory = false;
  due_to_init_epoch_error = false;
}

-- A bit of the bitset is written.
abbrev pub write_flag : MinerPauseEnum → Bool → PauseFlags → PauseFlags
write_flag overheating b f = record f { due_to_overheating = b }
write_flag api_request b f = record f { due_to_api_request = b }
write_flag farm_paused b f = record f { due_to_farm_paused = b }
write_flag insufficient_memory b f = record f { due_to_insufficient_memory = b }
write_flag init_epoch_error b f = record f { due_to_init_epoch_error = b }

unfoldable pub set_flag : MinerPauseEnum → PauseFlags → PauseFlags
set_flag what f = write_flag what true f

unfoldable pub reset_flag : MinerPauseEnum → PauseFlags → PauseFlags
reset_flag what f = write_flag what false f

unfoldable pub test : MinerPauseEnum → PauseFlags → Bool
test overheating f = f.due_to_overheating
test api_request f = f.due_to_api_request
test farm_paused f = f.due_to_farm_paused
test insufficient_memory f = f.due_to_insufficient_memory
test init_epoch_error f = f.due_to_init_epoch_error

abbrev pub any : PauseFlags → Bool
any f =
    f.due_to_overheating || f.due_to_api_request || f.due_to_farm_paused
    || f.due_to_insufficient_memory || f.due_to_init_epoch_error

abbrev pub all_reasons : List MinerPauseEnum
all_reasons = overheating ∷ api_request ∷ farm_paused ∷ insufficient_memory ∷ init_epoch_error ∷ []

abbrev pub reason_text : MinerPauseEnum → String
reason_text overheating = "Overheating"
reason_text api_request = "Api request"
reason_text farm_paused = "Farm suspended"
reason_text insufficient_memory = "Insufficient GPU memory"
reason_text init_epoch_error = "Epoch initialization error"

-- The reasons that the loop of `pausedString` appends, in its order.
unfoldable pub paused_reasons : List MinerPauseEnum → PauseFlags → List MinerPauseEnum
unfolding test
paused_reasons [] f = []
paused_reasons (r ∷ rs) f = if test r f then r ∷ paused_reasons rs f else paused_reasons rs f

pub test-set_flag_self :
    (what : MinerPauseEnum) (f : PauseFlags) → test what (set_flag what f) ≡ true
unfolding test set_flag
test-set_flag_self overheating f = refl
test-set_flag_self api_request f = refl
test-set_flag_self farm_paused f = refl
test-set_flag_self insufficient_memory f = refl
test-set_flag_self init_epoch_error f = refl

pub test-write_flag_ne :
    (a b : MinerPauseEnum) (v : Bool) (f : PauseFlags)
    → a ≢ b
    → test a (write_flag b v f) ≡ test a f
unfolding test
test-write_flag_ne a overheating v f h = ground arith
test-write_flag_ne a api_request v f h = ground arith
test-write_flag_ne a farm_paused v f h = ground arith
test-write_flag_ne a insufficient_memory v f h = ground arith
test-write_flag_ne a init_epoch_error v f h = ground arith

pub any-test : (what : MinerPauseEnum) (f : PauseFlags) → test what f ≡ true → any f ≡ true
unfolding test
any-test overheating f h = ground arith
any-test api_request f h = ground arith
any-test farm_paused f h = ground arith
any-test insufficient_memory f h = ground arith
any-test init_epoch_error f h = ground arith

pub test-reset_flag_self :
    (what : MinerPauseEnum) (f : PauseFlags) → test what (reset_flag what f) ≡ false
unfolding test reset_flag
test-reset_flag_self overheating f = refl
test-reset_flag_self api_request f = refl
test-reset_flag_self farm_paused f = refl
test-reset_flag_self insufficient_memory f = refl
test-reset_flag_self init_epoch_error f = refl
