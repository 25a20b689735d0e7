-- ===== src/Api/Details.antt =====
-- libapicore/ApiServer.cpp: `getMinerStat1`, `getMinerStatDetail` and `getMinerStatDetailPerMiner`,
-- without the measured rates and what is known of a device.
pub mod Segments
use firominer.Base.{
  ℕ, ◌+◌, ◌-◌, ◌%◌, ◌^◌, Bool, true, false, Option, none, some, List, [], ◌∷◌, map,
}
use firominer.Base.{get_elem?, ◌==◌, if◌then◌else◌, length}
use firominer.Miner.{Miner, paused}
use firominer.Miner.Flags.{all_reasons, paused_reasons}
use firominer.Hex.{to_hex}
use firominer.Farm.{Farm, TelemetryAccount}
use firominer.Farm.Work.{segment_start}
use firominer.Farm.Solutions.{SolutionAccount}
use firominer.Pool.{Uri, Manager, is_connected}
use firominer.Pool.Connections.{get_active_connection}
use firominer.Api.{Stat1, Shares, DeviceDetail, Detail}

abbrev pub shares_of : ℕ → SolutionAccount → Shares
shares_of now a = record {
  accepted = a.accepted;
  rejected = a.rejected;
  failed = a.failed;
  seconds = now - a.tstamp;
}

abbrev pub stat1_of : Farm → Uri → Stat1
stat1_of f u = record {
  accepted = f.farm_solutions.accepted;
  rejected = f.farm_solutions.rejected;
  failed = f.farm_solutions.failed;
  host = u.host;
  port = u.port;
  temps = map (λ (t : TelemetryAccount). t.temp_c) f.telemetry_miners;
}

abbrev pub stat1_at : Farm → Option Uri → Option Stat1
stat1_at f none = none
stat1_at f (some u) = some (stat1_of f u)

-- The address of the active connection is read without a check; `none` is a read through null.
unfoldable pub get_miner_stat1 : Manager → Option Stat1
unfolding get_active_connection
get_miner_stat1 m = stat1_at m.farm (get_active_connection m)

abbrev pub device_detail : ℕ → Farm → Miner → TelemetryAccount → DeviceDetail
device_detail now f m t =
    let start = segment_start f.nonce_scrambler m.index f.nonce_segment_width in
    record {
      index = m.index;
      temp_c = t.temp_c;
      shares = shares_of now t.solutions;
      paused = paused m;
      pause_reason = if paused m then some (paused_reasons all_reasons m.pause_flags) else none;
      segment_from = to_hex start true 16;
      segment_to = to_hex ((start + 2 ^ f.nonce_segment_width % 2 ^ 64) % 2 ^ 64) true 16;
    }

abbrev pub detail_with : ℕ → Farm → Miner → Option TelemetryAccount → Option DeviceDetail
detail_with now f m none = none
detail_with now f m (some t) = some (device_detail now f m t)

-- `none` where the index has no entry in the telemetry, and `at` throws.
unfoldable pub get_device_detail : ℕ → Farm → Miner → Option DeviceDetail
unfolding segment_start to_hex paused paused_reasons
get_device_detail now f m = detail_with now f m (get_elem? f.telemetry_miners m.index)

abbrev pub add_device :
    Option DeviceDetail → Option (List DeviceDetail) → Option (List DeviceDetail)
add_device none ds = none
add_device (some d) none = none
add_device (some d) (some ds) = some (d ∷ ds)

unfoldable pub get_devices : ℕ → Farm → List Miner → Option (List DeviceDetail)
unfolding get_device_detail
get_devices now f [] = some []
get_devices now f (m ∷ ms) = add_device (get_device_detail now f m) (get_devices now f ms)

-- `getMinerStatDetail` ends with its object, throws, or reads through null.
pub data DetailEnd : Type 0 where
  has_detail : Detail → DetailEnd
  detail_throws detail_ends_process : DetailEnd

abbrev pub detail_of : ℕ → Manager → Uri → List DeviceDetail → Detail
detail_of now m u ds = record {
  uri = u.str;
  connected = is_connected m;
  switches = m.connection_switches;
  epoch = m.current_wp.epoch;
  epoch_changes = m.epoch_changes;
  shares = shares_of now m.farm.farm_solutions;
  temperatures =
      if m.farm.settings.temp_stop == 0
      then none
      else some (m.farm.settings.temp_start, m.farm.settings.temp_stop);
  devices = ds;
}

abbrev pub with_devices : ℕ → Manager → Uri → Option (List DeviceDetail) → DetailEnd
with_devices now m u none = detail_throws
with_devices now m u (some ds) = has_detail (detail_of now m u ds)

unfoldable pub detail_at : ℕ → Manager → Option Uri → DetailEnd
unfolding get_devices
detail_at now m none = detail_ends_process
detail_at now m (some u) = with_devices now m u (get_devices now m.farm m.farm.miners)

unfoldable pub get_miner_stat_detail : ℕ → Manager → DetailEnd
unfolding get_active_connection detail_at
get_miner_stat_detail now m = detail_at now m (get_active_connection m)
