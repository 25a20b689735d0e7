-- ===== src/Farm/Data.antt =====
-- libethcore/Farm.cpp: `collectData`, without the hash rates and the sensors other than the
-- temperature. The reading of a miner's temperature is a parameter: it comes from a library of the
-- device's vendor, and is 0 where no monitor answers.
use firominer.Base.{leb, true, false, ℕ, ◌<◌, ◌≡◌, not, ◌&&◌, Option, none, some, List, [], ◌∷◌}
use firominer.Base.{get_elem?, set, ltb, if◌then◌else◌, arith}
use firominer.Miner.{Miner, paused, pause, resume, pause_test, trigger_hash_rate_update}
use firominer.Miner.Flags.{overheating}
use firominer.Farm.{Farm, FarmSettings, TelemetryAccount}

-- The check of the temperature against the thresholds, which compares as unsigned.
unfoldable pub check_threshold : FarmSettings → ℕ → Miner → Miner
unfolding pause resume pause_test
check_threshold s temp_c m =
    if ltb 0 s.temp_stop
    then (let was_paused = pause_test m overheating in
        let m1 = if not was_paused && leb s.temp_stop temp_c then pause m overheating else m in
        if was_paused && leb temp_c s.temp_start then resume m1 overheating else m1)
    else m

-- One round of the loop: the miner and its telemetry after it.
unfoldable pub collect_miner :
    (Miner → ℕ) → FarmSettings → Miner → TelemetryAccount → Miner × TelemetryAccount
unfolding paused check_threshold trigger_hash_rate_update
collect_miner temperature s m t =
    let t1 = record t { is_paused = paused m } in
    if ltb 0 s.hw_mon
    then (
      (trigger_hash_rate_update (check_threshold s (temperature m) m)).1,
      record t1 { temp_c = temperature m },
    )
    else ((trigger_hash_rate_update m).1, t1)

-- A miner's round with its entry of the telemetry; `none` is the exception of `at`.
abbrev pub collect_entry :
    (Miner → ℕ)
    → FarmSettings
    → Miner
    → Option TelemetryAccount
    → List TelemetryAccount
    → Option (Miner × List TelemetryAccount)
collect_entry temperature s m none ts = none
collect_entry temperature s m (some t) ts =
    let r = collect_miner temperature s m t in some (r.0, set ts m.index r.1)

abbrev pub cons_miner :
    Miner
    → Option (List Miner × List TelemetryAccount)
    → Option (List Miner × List TelemetryAccount)
cons_miner m none = none
cons_miner m (some (ms, ts)) = some (m ∷ ms, ts)

-- The loop over the miners.
unfoldable pub collect_miners :
    (Miner → ℕ)
    → FarmSettings
    → List Miner
    → List TelemetryAccount
    → Option (List Miner × List TelemetryAccount)
unfolding collect_miner
collect_miners temperature s [] ts = some ([], ts)
collect_miners temperature s (m ∷ ms) ts =
    elim (collect_entry temperature s m (get_elem? ts m.index) ts) [
      | none ↦ none
      | some (m', ts') ↦ cons_miner m' (collect_miners temperature s ms ts')
    ]

abbrev pub with_collected : Farm → Option (List Miner × List TelemetryAccount) → Option Farm
with_collected f none = none
with_collected f (some (ms, ts)) = some (record f { miners = ms; telemetry_miners = ts })

-- `collectData` where the timer has run out; `none` is an exception that leaves the loop.
unfoldable pub collect_data : (Miner → ℕ) → Farm → Option Farm
unfolding collect_miners
collect_data temperature f =
    with_collected f (collect_miners temperature f.settings f.miners f.telemetry_miners)

-- With the temperature control on and the threshold to start below the one to stop, a check leaves
-- the overheating flag set from the stop threshold up, and clear from the start threshold down;
-- between the two, the flag stays as it was.
check_threshold_lem :
    (s : FarmSettings) (temp_c : ℕ) (m : Miner)
    → 0 < s.temp_stop
    → s.temp_start < s.temp_stop
    → pause_test (check_threshold s temp_c m) overheating ≡ (
        if leb s.temp_stop temp_c
        then true
        else if leb temp_c s.temp_start
        then false
        else pause_test m overheating)
unfolding check_threshold
check_threshold_lem s temp_c m on apart = ground arith
