-- ===== src/Farm/Restart.antt =====
-- libethcore/Farm.cpp: the telemetry of the farm across restarts.
use firominer.Base.{
  ℕ, ◌+◌, ◌≡◌, ap, ◌∙◌, true, false, Option, none, some, List, [], ◌∷◌, length, arith,
}
use firominer.Base.{String, length-append}
use firominer.Farm.Mining.{IsWellFormed}
use firominer.Farm.{
  Farm, Build, DeviceSubscriptionType, prefix_of, start, stop, add_miners, add_miner,
}

abbrev count_one : Option String → ℕ
count_one none = 0
count_one (some p) = 1

-- The miners that a build has for the devices.
abbrev pub supported : Build → List DeviceSubscriptionType → ℕ
supported b [] = 0
supported b (d ∷ ds) = count_one (prefix_of b d) + supported b ds

length-add_miner :
    (f : Farm) (p : Option String)
    → (length (add_miner f p).miners ≡ length f.miners + count_one p)
      × (length (add_miner f p).telemetry_miners ≡ length f.telemetry_miners + count_one p)
length-add_miner f none = omega arith
length-add_miner f (some p) =
    omega (arith, length-append f.miners, length-append f.telemetry_miners)

length-add_miners :
    (b : Build) (f : Farm) (ds : List DeviceSubscriptionType)
    → (length (add_miners b f ds).miners ≡ length f.miners + supported b ds)
      × (length (add_miners b f ds).telemetry_miners ≡ length f.telemetry_miners + supported b ds)
unfolding add_miners
length-add_miners b f [] = omega arith
length-add_miners b f (d ∷ ds) = omega (
  arith,
  length-add_miners b (add_miner f (prefix_of b d)) ds,
  length-add_miner f (prefix_of b d),
)

stop_lem :
    (f : Farm)
    → (f.is_mining ≡ false → f.miners ≡ [])
    → ((stop f).is_mining ≡ false)
      × ((stop f).miners ≡ [])
      × ((stop f).telemetry_miners ≡ f.telemetry_miners)
unfolding stop
stop_lem f idle = ground (arith, idle)

start_idle :
    (b : Build) (ds : List DeviceSubscriptionType) (f : Farm)
    → f.is_mining ≡ false
    → f.miners ≡ []
    → let f' = start b ds f in
      (f'.is_mining ≡ true)
      × (length f'.miners ≡ supported b ds)
      × (length f'.telemetry_miners ≡ length f.telemetry_miners + supported b ds)
unfolding start
start_idle b ds f off none_left = ground (arith, length-add_miners b f ds)

-- A start of a farm that is not mining makes one miner for each device that the build supports,
-- and then the farm is mining. It adds as many entries to the telemetry, also when the entries of
-- earlier miners are still there: `stop` lets the miners go and keeps their entries.
pub start-stop :
    (b : Build) (ds : List DeviceSubscriptionType) (f : Farm)
    → IsWellFormed f
    → let f' = start b ds (stop f) in
      (f'.is_mining ≡ true)
      × (length f'.miners ≡ supported b ds)
      × (length f'.telemetry_miners ≡ length f.telemetry_miners + supported b ds)
start-stop b ds f w =
    let s = stop_lem f w.idle in
    let r = start_idle b ds (stop f) s.0 s.1 in
    (r.0, r.1, r.2 ∙ ap (λ ts. length ts + supported b ds) s.2)
