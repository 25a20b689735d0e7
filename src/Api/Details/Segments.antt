-- ===== src/Api/Details/Segments.antt =====
-- libapicore/ApiServer.cpp: the devices that `getMinerStatDetail` shows, and their segments.
use firominer.Base.{
  ℕ, zero, suc, ◌+◌, ◌≤◌, ◌≡◌, refl, ◌∙◌, ap, sym, arith, true, false, some, List, [],
}
use firominer.Base.{◌∷◌, length, get_elem?, get_elem?_lt, get_elem?-some, subst}
use mathlib.Core.Option.{some-injective}
use firominer.Hex.{to_hex}
use firominer.Miner.{Miner, WorkPackage, set_work, paused}
use firominer.Farm.{Farm}
use firominer.Farm.Work.{segment_start, set_work_farm, with_epoch, work_at}
use firominer.Farm.Mining.{Indexed, IsWellFormed}
use firominer.Farm.Nonces.{base_nonce, set_work_farm-get_elem?}
use firominer.Pool.{Manager, Uri}
use firominer.Pool.Connections.{get_active_connection}
use firominer.Api.{DeviceDetail, Detail}
use firominer.Api.Details.{device_detail, detail_of, detail_at, get_device_detail, get_devices}
use firominer.Api.Details.{get_miner_stat_detail, has_detail}

-- A device is shown with its index and with the segment of that index.
pub record Shows (f : Farm) (i : ℕ) (x : DeviceDetail) : Type 0 where
  pub index : x.index ≡ i
  pub segment_from :
      x.segment_from ≡ to_hex (segment_start f.nonce_scrambler i f.nonce_segment_width) true 16

device-Shows :
    (now : ℕ) (f : Farm) (m : Miner) (k : ℕ)
    → m.index ≡ k
    → k + 1 ≤ length f.telemetry_miners
    → (x : DeviceDetail) × (get_device_detail now f m ≡ some x) × Shows f k x
unfolding get_device_detail
device-Shows now f m k e h =
    let (t, found) = get_elem?_lt f.telemetry_miners m.index (omega arith) in
    (device_detail now f m t, rw found, record { index = e; segment_from = rw e refl })

get_devices-Shows :
    (now : ℕ) (f : Farm) (k : ℕ) (ms : List Miner)
    → Indexed k ms
    → k + length ms ≤ length f.telemetry_miners
    → (ds : List DeviceDetail) × (get_devices now f ms ≡ some ds)
      × (length ds ≡ length ms)
      × ((i : ℕ) (x : DeviceDetail) → get_elem? ds i ≡ some x → Shows f (k + i) x)
unfolding get_devices
get_devices-Shows now f k [] h l = ([], refl, refl, λ i x e. absurd (ground (arith, e)))
get_devices-Shows now f k (m ∷ ms) h l =
    let (d, ed, sd) = device-Shows now f m k h.0 (omega arith) in
    let (ds, eds, el, sds) = get_devices-Shows now f (suc k) ms h.1 (omega arith) in
    (d ∷ ds, rw (ed, eds) refl, ap suc el, at_index d ds sd sds)
  where
    at_index :
        (d : DeviceDetail) (ds : List DeviceDetail)
        → Shows f k d
        → ((i : ℕ) (x : DeviceDetail) → get_elem? ds i ≡ some x → Shows f (suc k + i) x)
        → (i : ℕ) (x : DeviceDetail) → get_elem? (d ∷ ds) i ≡ some x
        → Shows f (k + i) x
    at_index d ds sd sds zero x e =
        let here : k ≡ k + 0 = omega arith in
        subst (λ y. Shows f (k + 0) y) (some-injective d x e) (subst (λ n. Shows f n d) here sd)
    at_index d ds sd sds (suc i) x e =
        let next : suc k + i ≡ k + suc i = omega arith in subst (λ n. Shows f n x) next (sds i x e)

-- With an active connection and a well-formed farm, `miner_getstatdetail` neither throws nor ends
-- the process: it shows every miner, the one at index `i` with this index and with segment `i`
-- counted from the farm's scrambler.
pub get_miner_stat_detail-Shows :
    (now : ℕ) (m : Manager) (u : Uri)
    → get_active_connection m ≡ some u
    → IsWellFormed m.farm
    → (d : Detail) × (get_miner_stat_detail now m ≡ has_detail d)
      × (length d.devices ≡ length m.farm.miners)
      × ((i : ℕ) (x : DeviceDetail) → get_elem? d.devices i ≡ some x → Shows m.farm i x)
unfolding get_miner_stat_detail detail_at
get_miner_stat_detail-Shows now m u active w =
    let (ds, eds, el, sds) =
      get_devices-Shows now m.farm 0 m.farm.miners w.indexed (omega (arith, w.covered)) in
    (
      detail_of now m u ds,
      rw (active, eds) refl,
      el,
      λ i x e.
          let zero_first : 0 + i ≡ i = omega arith in
          subst (λ n. Shows m.farm n x) zero_first (sds i x e),
    )

set_work-start_nonce :
    (m : Miner) (wp : WorkPackage)
    → paused m ≡ false
    → (set_work m wp).work.start_nonce ≡ wp.start_nonce
unfolding set_work
set_work-start_nonce m wp e = rw e refl

base_nonce-whole :
    (wp : WorkPackage) (f : Farm) → wp.ex_size_bytes ≡ 0 → base_nonce wp f ≡ f.nonce_scrambler
base_nonce-whole wp f e = ground arith

-- After the farm has dealt out work of a known epoch, with no part of the nonce space assigned by
-- the pool, `miner_getstatdetail` shows for each miner that is not paused, as the beginning of its
-- segment, the nonce that the miner was told to start at.
pub get_miner_stat_detail-set_work_farm :
    (random : ℕ → ℕ) (f : Farm) (wp : WorkPackage) (epoch now : ℕ) (m : Manager) (u : Uri)
    → wp.epoch ≡ some epoch
    → wp.ex_size_bytes ≡ 0
    → m.farm ≡ set_work_farm random f wp
    → get_active_connection m ≡ some u
    → IsWellFormed m.farm
    → (i : ℕ) (m0 : Miner) → get_elem? (with_epoch f epoch).miners i ≡ some m0
    → paused m0 ≡ false
    → (d : Detail) × (get_miner_stat_detail now m ≡ has_detail d)
      × ((x : DeviceDetail) × (get_elem? d.devices i ≡ some x)
          × ((told : Miner) × (get_elem? m.farm.miners i ≡ some told)
              × (x.segment_from ≡ to_hex told.work.start_nonce true 16)))
get_miner_stat_detail-set_work_farm random f wp epoch now m u known whole dealt active w i m0 e p =
    let (d, ed, el, shows) = get_miner_stat_detail-Shows now m u active w in
    let (at_i, _) = set_work_farm-get_elem? random f wp epoch known i m0 e in
    let f' = set_work_farm random f wp in
    let told = set_work m0 (work_at wp (base_nonce wp f') i f'.nonce_segment_width) in
    let at_m : get_elem? m.farm.miners i ≡ some told =
      subst (λ (x : Farm). get_elem? x.miners i ≡ some told) (sym dealt) at_i in
    let (x, ex) =
      get_elem?_lt d.devices i (omega (arith, get_elem?-some m.farm.miners i told at_m)) in
    let starts : told.work.start_nonce ≡ segment_start f'.nonce_scrambler i f'.nonce_segment_width =
      set_work-start_nonce m0 (work_at wp (base_nonce wp f') i f'.nonce_segment_width) p
      ∙ ap (λ b. segment_start b i f'.nonce_segment_width) (base_nonce-whole wp f' whole) in
    let same : segment_start m.farm.nonce_scrambler i m.farm.nonce_segment_width
        ≡ told.work.start_nonce =
      subst
        (λ (x : Farm).
          segment_start x.nonce_scrambler i x.nonce_segment_width ≡ told.work.start_nonce)
        (sym dealt) (sym starts) in
    (d, ed, (x, ex, (told, at_m, (shows i x ex).segment_from ∙ ap (λ n. to_hex n true 16) same)))
