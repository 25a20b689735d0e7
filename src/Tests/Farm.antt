-- ===== src/Tests/Farm.antt =====
-- The farm at concrete inputs.
use firominer.Base.{
  ℕ, suc, ◌+◌, ◌-◌, ◌*◌, ◌%◌, ◌^◌, ◌≤◌, ◌<◌, ◌≡◌, ◌≢◌, refl, true, false, List, [],
}
use firominer.Base.{◌∷◌, some, length, get_elem?, arith, if◌then◌else◌, ◌==◌}
use firominer.Miner.{Miner, WorkPackage, no_work, new_miner, set_work, set_epoch}
use firominer.Farm.{new_account, Farm, FarmSettings, Build, DeviceSubscriptionType, cuda, cpu}
use firominer.Farm.{unsubscribed, new_farm}
use firominer.Farm.Work.{segment_start, work_at, with_epoch, set_work_farm}
use firominer.Farm.Mining.{IsWellFormed}
use firominer.Farm.Proof.{Solution, Verifiers}
use firominer.Farm.Proof.{ok, invalid_nonce}
use firominer.Farm.Data.{collect_data}
use firominer.Farm.Calls.{Call, starts, sets_work, pauses, collects, stops, calls, calls-new_farm}
use firominer.Farm.Nonces.{
  base_nonce, segment_start-ne, set_work_farm-get_elem?, set_work_farm-fits,
}

abbrev pub random : ℕ → ℕ
random n = 1000 * n + 7

abbrev pub settings : FarmSettings
settings = record {
  dag_load_mode = 0;
  no_eval = false;
  hw_mon = 1;
  ergodicity = 2;
  temp_start = 60;
  temp_stop = 80;
}

abbrev pub build : Build
build = record { with_cuda = true; with_cl = false; with_cpu = true }

abbrev pub devices : List DeviceSubscriptionType
devices = cuda ∷ unsubscribed ∷ cpu ∷ []

-- A job of a pool that assigns 4 hexadecimal digits of the nonce.
abbrev pub job : WorkPackage
job = record no_work { header = 99; epoch = some 5; start_nonce = 4096; ex_size_bytes = 4 }

-- A farm with two miners.
abbrev pub farm : Farm
farm = record (new_farm random settings) {
  is_mining = true;
  miners = new_miner 0 ∷ new_miner 1 ∷ [];
  telemetry_miners = new_account "cu" ∷ new_account "cp" ∷ [];
}

segment_start-ne_example :
    (segment_start (2 ^ 64 - 5) 0 62 + 9) % 2 ^ 64 ≢ (segment_start (2 ^ 64 - 5) 3 62 + 9) % 2 ^ 64
segment_start-ne_example =
    segment_start-ne (2 ^ 64 - 5) 62 4 0 3 9 9 (omega arith) (omega arith) (omega arith)
      (λ e. absurd (omega arith)) (omega arith) (omega arith)

set_work_farm-get_elem?_example :
    let f' = set_work_farm random farm job in
    (get_elem? f'.miners 1
      ≡ some (
          set_work
            (set_epoch (new_miner 1) 5)
            (work_at job (base_nonce job f') 1 f'.nonce_segment_width)))
    × (length f'.miners ≡ 2)
unfolding with_epoch new_farm
set_work_farm-get_elem?_example =
    set_work_farm-get_elem? random farm job 5 refl 1 (set_epoch (new_miner 1) 5) refl

set_work_farm-fits_example :
    let width = (set_work_farm random farm job).nonce_segment_width in
    (2 * 2 ^ width ≤ 2 ^ (64 - 4 * 4)) × (2 ^ (64 - 4 * 4) < 2 * 2 ^ suc width)
set_work_farm-fits_example =
    set_work_farm-fits random farm job 5 refl (omega arith) (omega arith) (omega arith)

abbrev pub solution : Solution
solution = record { nonce = 3; mix_hash = 0; work = record job { block = some 11 }; midx = 1 }

-- A verification that takes even nonces only.
abbrev pub verifiers : Verifiers
verifiers = record {
  ethash = λ ec s. ok;
  progpow = λ block s. if s.nonce % 2 == 0 then ok else invalid_nonce;
}

abbrev hot : Miner → ℕ
hot m = 90

abbrev some_calls : List Call
some_calls =
    starts build devices ∷ sets_work job ∷ collects hot ∷ pauses ∷ stops ∷ starts build devices ∷ []

calls-new_farm_example :
    let f = calls random (new_farm random settings) some_calls in
    IsWellFormed f × ((f' : Farm) × (collect_data hot f ≡ some f'))
calls-new_farm_example = calls-new_farm random settings some_calls hot
