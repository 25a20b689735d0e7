-- ===== src/Farm/WellFormed.antt =====
-- libethcore/Farm.cpp: a new job, an accounted solution and a round of `collectData` on a well
-- formed farm.
use firominer.Base.{
  ℕ, zero, suc, ◌+◌, ◌*◌, ◌≤◌, ◌<◌, ◌≡◌, refl, ap, ◌∙◌, Bool, true, false, Option, sym,
}
use firominer.Base.{
  subst, String, get_elem?_lt, Option-cases, inl, inr, if◌then◌else◌, get_elem?-set_ne,
}
use firominer.Base.{length-append, none, some, List, [], ◌∷◌, length, length-map, get_elem?, set}
use firominer.Base.{length-set, arith}
use firominer.Miner.{Miner, WorkPackage, set_epoch}
use firominer.Farm.{Farm, FarmSettings, TelemetryAccount, start}
use firominer.Farm.Solutions.{SolutionAccounting, account}
use firominer.Farm.Work.{with_epoch, shuffle_for_job, first_nonce, distribute, set_work_farm}
use firominer.Farm.Work.{set_work_at_epoch, set_works}
use firominer.Farm.Nonces.{length-set_works}
use firominer.Farm.Proof.{account_solution, account_miner}
use firominer.Farm.Data.{collect_miner, collect_miners, collect_data}
use firominer.Farm.Mining.{Indexed, IsWellFormed, map-IsWellFormed, set_works-Indexed}
use firominer.Base

set_epoch-index : (ec : ℕ) (m : Miner) → (set_epoch m ec).index ≡ m.index
unfolding set_epoch
set_epoch-index ec m = refl

with_epoch-IsWellFormed : (f : Farm) (e : ℕ) → IsWellFormed f → IsWellFormed (with_epoch f e)
unfolding with_epoch
with_epoch-IsWellFormed f e w = by_test _
  where
    renewed : Farm
    renewed = record f { current_ec = some e }

    by_test :
        (same : Bool)
        → IsWellFormed
            (if same then f else record renewed { miners = Base.map (λ m. set_epoch m e) f.miners })
    by_test true = w
    by_test false =
        map-IsWellFormed (λ m. set_epoch m e) (set_epoch-index e) renewed
          (record { indexed = w.indexed; covered = w.covered; idle = w.idle })

-- Three steps of `setWork` that leave miners, telemetry and `m_isMining` alone.
abbrev SameMiners : Farm → Farm → Type 0
SameMiners f g =
    (g.miners ≡ f.miners) × (g.telemetry_miners ≡ f.telemetry_miners) × (g.is_mining ≡ f.is_mining)

SameMiners-IsWellFormed : (f g : Farm) → SameMiners f g → IsWellFormed f → IsWellFormed g
SameMiners-IsWellFormed f g same w = record {
  indexed = subst (Indexed 0) (sym same.0) w.indexed;
  covered = rw (same.0, same.1) w.covered;
  idle = λ h. same.0 ∙ w.idle (sym same.2 ∙ h);
}

shuffle_for_job-SameMiners : (random : ℕ → ℕ) (f : Farm) → SameMiners f (shuffle_for_job random f)
unfolding shuffle_for_job
shuffle_for_job-SameMiners random f = ground arith

first_nonce-SameMiners : (f : Farm) → SameMiners f (first_nonce f).1
unfolding first_nonce
first_nonce-SameMiners f = ground arith

distribute-IsWellFormed : (p : ℕ × Farm) → IsWellFormed p.1 → IsWellFormed (distribute p)
unfolding distribute
distribute-IsWellFormed (s, f) w = record {
  indexed = set_works-Indexed f.current_wp s f.nonce_segment_width 0 0 f.miners w.indexed;
  covered =
      omega (arith, w.covered, length-set_works f.current_wp s f.nonce_segment_width 0 f.miners);
  idle = λ h. set_works-nil f.current_wp s f.nonce_segment_width f.miners (w.idle h);
}
  where
    set_works-nil :
        (wp : WorkPackage) (start width : ℕ) (ms : List Miner)
        → ms ≡ []
        → set_works wp start width 0 ms ≡ []
    set_works-nil wp start width ms e = rw (e, set_works) refl

pub set_work_farm-IsWellFormed :
    (random : ℕ → ℕ) (f : Farm) (wp : WorkPackage)
    → IsWellFormed f
    → IsWellFormed (set_work_farm random f wp)
unfolding set_work_farm
set_work_farm-IsWellFormed random f wp w = by_epoch wp.epoch
  where
    by_epoch : (epoch : Option ℕ) → IsWellFormed (set_work_at_epoch random f wp epoch)
    by_epoch none = w
    by_epoch (some e) =
        let f1 = record (with_epoch f e) { current_wp = wp } in
        let w0 = with_epoch-IsWellFormed f e w in
        let w1 : IsWellFormed f1 = record {
          indexed = w0.indexed;
          covered = w0.covered;
          idle = w0.idle;
        } in
        let f2 = shuffle_for_job random f1 in
        distribute-IsWellFormed (first_nonce f2) (
          SameMiners-IsWellFormed f2 _ (first_nonce-SameMiners f2)
            (SameMiners-IsWellFormed f1 f2 (shuffle_for_job-SameMiners random f1) w1))

pub account_solution-IsWellFormed :
    (f : Farm) (midx : ℕ) (acc : SolutionAccounting) (now : ℕ)
    → IsWellFormed f
    → IsWellFormed (account_solution f midx acc now).0
unfolding account_solution
account_solution-IsWellFormed f midx acc now w = by_entry (get_elem? f.telemetry_miners midx)
  where
    counted : Farm
    counted = record f { farm_solutions = account acc now f.farm_solutions }

    by_entry : (o : Option TelemetryAccount) → IsWellFormed (account_miner counted midx acc now o).0
    by_entry none = record { indexed = w.indexed; covered = w.covered; idle = w.idle }
    by_entry (some t) = record {
      indexed = w.indexed;
      covered = omega (arith, w.covered, length-set f.telemetry_miners midx);
      idle = w.idle;
    }

collect_miner-index :
    (temperature : Miner → ℕ) (s : FarmSettings) (m : Miner) (t : TelemetryAccount)
    → (collect_miner temperature s m t).0.index ≡ m.index
unfolding collect_miner
collect_miner-index temperature s m t = ground arith

-- What the loop of `collectData` comes to on miners that have their entries.
record Collected (k n : ℕ) (ts : List TelemetryAccount)
    (result : Option (List Miner × List TelemetryAccount)) : Type 0 where
  miners : List Miner
  entries : List TelemetryAccount
  returns : result ≡ some (miners, entries)
  indexed : Indexed k miners
  same_miners : length miners ≡ n
  same_entries : length entries ≡ length ts

collect_miners-Collected :
    (temperature : Miner → ℕ) (s : FarmSettings) (k : ℕ) (ms : List Miner)
    (ts : List TelemetryAccount)
    → Indexed k ms
    → k + length ms ≤ length ts
    → Collected k (length ms) ts (collect_miners temperature s ms ts)
unfolding collect_miners
collect_miners-Collected temperature s k [] ts h c = record {
  miners = [];
  entries = ts;
  returns = refl;
  indexed = tt;
  same_miners = refl;
  same_entries = refl;
}
collect_miners-Collected temperature s k (m ∷ ms) ts h c =
    let (t, e) = get_elem?_lt ts m.index (omega (arith, h.0)) in
    let r = collect_miner temperature s m t in
    let kept : length (set ts m.index r.1) ≡ length ts = length-set ts m.index r.1 in
    let rest =
      collect_miners-Collected temperature s (suc k) ms (set ts m.index r.1) h.1
        (omega (arith, kept, c)) in
    record {
      miners = r.0 ∷ rest.miners;
      entries = rest.entries;
      returns = ground (arith, e, rest.returns);
      indexed = (collect_miner-index temperature s m t ∙ h.0, rest.indexed);
      same_miners = ap suc rest.same_miners;
      same_entries = rest.same_entries ∙ kept;
    }

length-nil {ℓ} : {A : Type ℓ} (xs : List A) → length xs ≡ 0 → xs ≡ []
length-nil [] e = refl
length-nil (x ∷ xs) e = absurd (omega arith)

-- No exception leaves the loop of `collectData`, and the farm stays well formed.
pub collect_data-IsWellFormed :
    (temperature : Miner → ℕ) (f : Farm)
    → IsWellFormed f
    → (f' : Farm) × (collect_data temperature f ≡ some f') × IsWellFormed f'
unfolding collect_data
collect_data-IsWellFormed temperature f w =
    let c =
      collect_miners-Collected temperature f.settings 0 f.miners f.telemetry_miners w.indexed
        (omega (arith, w.covered)) in
    (
      record f { miners = c.miners; telemetry_miners = c.entries },
      rw c.returns refl,
      record {
        indexed = c.indexed;
        covered = omega (arith, c.same_miners, c.same_entries, w.covered);
        idle = λ h. length-nil c.miners (c.same_miners ∙ ap length (w.idle h));
      },
    )
