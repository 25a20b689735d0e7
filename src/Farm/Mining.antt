-- ===== src/Farm/Mining.antt =====
-- libethcore/Farm.cpp: starting and stopping the miners, and the indices by which `collectData` and
-- `accountSolution` reach their telemetry.
use firominer.Base.{
  ℕ, suc, ◌+◌, ◌≤◌, ◌≡◌, refl, ◌∙◌, Bool, true, false, Option, none, some, List, [],
}
use firominer.Base.{◌∷◌, ◌++◌, map, length, length-append, length-map, arith, if◌then◌else◌, String}
use firominer.Miner.{Miner, WorkPackage, new_miner, set_work, set_epoch, trigger_hash_rate_update}
use firominer.Miner.{paused}
use firominer.Miner.Flags.{farm_paused}
use firominer.Farm.{start_miner, start, start_with, stop, pause, resume, Farm, Build}
use firominer.Farm.{DeviceSubscriptionType, prefix_of, new_account, add_miner, add_miners}
use firominer.Farm.Work.{set_works}
use firominer.Miner

-- The miners carry their positions.
abbrev pub Indexed : ℕ → List Miner → Type 0
Indexed k [] = Unit {0}
Indexed k (m ∷ ms) = (m.index ≡ k) × Indexed (suc k) ms

-- The miners are numbered from 0, each has an entry in the telemetry, and there are none while the
-- farm is not mining.
pub record IsWellFormed (f : Farm) : Type 0 where
  pub indexed : Indexed 0 f.miners
  pub covered : length f.miners ≤ length f.telemetry_miners
  pub idle : f.is_mining ≡ false → f.miners ≡ []

pub Indexed-map :
    (g : Miner → Miner) (keeps : (m : Miner) → (g m).index ≡ m.index) (k : ℕ) (ms : List Miner)
    → Indexed k ms
    → Indexed k (map g ms)
Indexed-map g keeps k [] h = tt
Indexed-map g keeps k (m ∷ ms) h = (keeps m ∙ h.0, Indexed-map g keeps (suc k) ms h.1)

Indexed-append :
    (k : ℕ) (ms : List Miner) (m : Miner)
    → Indexed k ms
    → m.index ≡ k + length ms
    → Indexed k (ms ++ m ∷ [])
Indexed-append k [] m h e = (omega arith, tt)
Indexed-append k (x ∷ ms) m h e = (h.0, Indexed-append (suc k) ms m h.1 (omega arith))

map-nil {ℓ κ} : {A : Type ℓ} {B : Type κ} (g : A → B) (xs : List A) → xs ≡ [] → map g xs ≡ []
map-nil g xs e = rw e refl

abbrev Numbered : Farm → Type 0
Numbered f = Indexed 0 f.miners × (length f.miners ≤ length f.telemetry_miners)

add_miner-Numbered : (f : Farm) (p : Option String) → Numbered f → Numbered (add_miner f p)
unfolding new_miner
add_miner-Numbered f none h = h
add_miner-Numbered f (some p) h = (
  Indexed-append 0 f.miners _ h.0 (omega arith),
  omega (
    arith,
    h.1,
    length-append f.miners (start_miner (new_miner (length f.miners)) ∷ []),
    length-append f.telemetry_miners (new_account p ∷ []),
  ),
)

-- The loop of `start` over the devices keeps the numbering, and gives each miner its entry.
add_miners-Numbered :
    (b : Build) (f : Farm) (ds : List DeviceSubscriptionType)
    → Numbered f
    → Numbered (add_miners b f ds)
unfolding add_miners
add_miners-Numbered b f [] h = h
add_miners-Numbered b f (d ∷ ds) h =
    add_miners-Numbered b (add_miner f (prefix_of b d)) ds (add_miner-Numbered f (prefix_of b d) h)

start_with-IsWellFormed :
    (b : Build) (ds : List DeviceSubscriptionType) (f : Farm) (ms : List Miner)
    → Indexed 0 ms
    → length ms ≤ length f.telemetry_miners
    → f.miners ≡ ms
    → IsWellFormed (start_with b ds f ms)
start_with-IsWellFormed b ds f [] i c e =
    let n = add_miners-Numbered b f ds (rw e i, rw e c) in
    record { indexed = n.0; covered = n.1; idle = λ h. cc }
start_with-IsWellFormed b ds f (m ∷ ms) i c e = record {
  indexed = Indexed-map start_miner (λ x. refl) 0 (m ∷ ms) i;
  covered = omega (arith, c, length-map start_miner ms);
  idle = λ h. cc;
}

pub start-IsWellFormed :
    (b : Build) (ds : List DeviceSubscriptionType) (f : Farm)
    → IsWellFormed f
    → IsWellFormed (start b ds f)
unfolding start
start-IsWellFormed b ds f w = by_mining f.is_mining
  where
    by_mining : (mining : Bool) → IsWellFormed (if mining then f else start_with b ds f f.miners)
    by_mining true = w
    by_mining false = start_with-IsWellFormed b ds f f.miners w.indexed w.covered refl

pub stop-IsWellFormed : (f : Farm) → IsWellFormed f → IsWellFormed (stop f)
unfolding stop
stop-IsWellFormed f w = by_mining f.is_mining
  where
    by_mining :
        (mining : Bool)
        → IsWellFormed (if mining then record f { miners = []; is_mining = false } else f)
    by_mining true = record { indexed = tt; covered = omega arith; idle = λ h. refl }
    by_mining false = w

-- A call that goes over the miners one by one and leaves their indices alone.
pub map-IsWellFormed :
    (g : Miner → Miner) (keeps : (m : Miner) → (g m).index ≡ m.index) (f : Farm)
    → IsWellFormed f
    → IsWellFormed (record f { miners = map g f.miners })
map-IsWellFormed g keeps f w = record {
  indexed = Indexed-map g keeps 0 f.miners w.indexed;
  covered = omega (arith, w.covered, length-map g f.miners);
  idle = λ h. map-nil g f.miners (w.idle h);
}

pause-index : (m : Miner) → (Miner.pause m farm_paused).index ≡ m.index
unfolding Miner.pause
pause-index m = refl

resume-index : (m : Miner) → (Miner.resume m farm_paused).index ≡ m.index
unfolding Miner.resume
resume-index m = refl

set_work-index : (m : Miner) (wp : WorkPackage) → (set_work m wp).index ≡ m.index
unfolding set_work
set_work-index m wp = ground arith

pub pause-IsWellFormed : (f : Farm) → IsWellFormed f → IsWellFormed (pause f)
unfolding pause
pause-IsWellFormed f w =
    map-IsWellFormed (λ m. Miner.pause m farm_paused) pause-index (record f { is_paused = true })
      (record { indexed = w.indexed; covered = w.covered; idle = w.idle })

pub resume-IsWellFormed : (f : Farm) → IsWellFormed f → IsWellFormed (resume f)
unfolding resume
resume-IsWellFormed f w =
    map-IsWellFormed (λ m. Miner.resume m farm_paused) resume-index (record f { is_paused = false })
      (record { indexed = w.indexed; covered = w.covered; idle = w.idle })

pub set_works-Indexed :
    (wp : WorkPackage) (first width i k : ℕ) (ms : List Miner)
    → Indexed k ms
    → Indexed k (set_works wp first width i ms)
unfolding set_works
set_works-Indexed wp first width i k [] h = tt
set_works-Indexed wp first width i k (m ∷ ms) h =
    (set_work-index m _ ∙ h.0, set_works-Indexed wp first width (i + 1) (suc k) ms h.1)
