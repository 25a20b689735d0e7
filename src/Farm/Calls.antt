-- ===== src/Farm/Calls.antt =====
-- libethcore/Farm.cpp: the farm after any calls.
use firominer.Base.{ℕ, ◌≡◌, refl, Option, none, some, List, [], ◌∷◌, arith}
use firominer.Miner.{Miner, WorkPackage}
use firominer.Farm.{Farm, FarmSettings, Build, DeviceSubscriptionType, TelemetryAccount, prefix_of}
use firominer.Farm.{new_farm, start, stop, shuffle, set_t_start_t_stop, add_miners, add_miner}
use firominer.Farm.Solutions.{SolutionAccounting}
use firominer.Farm.Work.{set_work_farm}
use firominer.Farm.Proof.{account_solution}
use firominer.Farm.Data.{collect_data}
use firominer.Farm.Mining.{IsWellFormed, start-IsWellFormed, stop-IsWellFormed, pause-IsWellFormed}
use firominer.Farm.Mining.{resume-IsWellFormed}
use firominer.Farm.WellFormed.{set_work_farm-IsWellFormed, account_solution-IsWellFormed}
use firominer.Farm.WellFormed.{collect_data-IsWellFormed}
use firominer.Farm.Scrambler.{set_nonce_scrambler, set_nonce_segment_width, on_miner}
use firominer.Farm.Scrambler.WellFormed.{
  on_miner-IsWellFormed, set_nonce_segment_width-IsWellFormed,
}
use firominer.Miner.Flags.{api_request}
use firominer.Farm
use firominer.Miner

-- The calls that other parts of the program make on the farm.
pub data Call : Type 0 where
  starts : Build → List DeviceSubscriptionType → Call
  stops pauses resumes shuffles : Call
  sets_work : WorkPackage → Call
  sets_thresholds : ℕ → ℕ → Call
  accounts : ℕ → SolutionAccounting → ℕ → Call
  collects : (Miner → ℕ) → Call
  sets_scrambler sets_width : ℕ → Call
  pauses_miner resumes_miner : ℕ → Call

abbrev pub or_same : Farm → Option Farm → Farm
or_same f none = f
or_same f (some f') = f'

unfoldable pub call : (ℕ → ℕ) → Farm → Call → Farm
unfolding start stop set_work_farm account_solution collect_data Farm.pause Farm.resume shuffle
    set_t_start_t_stop set_nonce_scrambler set_nonce_segment_width
call random f (starts b ds) = start b ds f
call random f stops = stop f
call random f pauses = Farm.pause f
call random f resumes = Farm.resume f
call random f shuffles = shuffle random f
call random f (sets_work wp) = set_work_farm random f wp
call random f (sets_thresholds lo hi) = set_t_start_t_stop f lo hi
call random f (accounts midx acc now) = (account_solution f midx acc now).0
call random f (collects temperature) = or_same f (collect_data temperature f)
call random f (sets_scrambler n) = set_nonce_scrambler f n
call random f (sets_width n) = set_nonce_segment_width f n
call random f (pauses_miner idx) = on_miner f idx (λ m. Miner.pause m api_request)
call random f (resumes_miner idx) = on_miner f idx (λ m. Miner.resume m api_request)

unfoldable pub calls : (ℕ → ℕ) → Farm → List Call → Farm
unfolding call
calls random f [] = f
calls random f (c ∷ cs) = calls random (call random f c) cs

pause-index : (m : Miner) → (Miner.pause m api_request).index ≡ m.index
unfolding Miner.pause
pause-index m = refl

resume-index : (m : Miner) → (Miner.resume m api_request).index ≡ m.index
unfolding Miner.resume
resume-index m = refl

pub call-IsWellFormed :
    (random : ℕ → ℕ) (f : Farm) (c : Call) → IsWellFormed f → IsWellFormed (call random f c)
call-IsWellFormed random f (starts b ds) w = unfold call in start-IsWellFormed b ds f w
call-IsWellFormed random f stops w = unfold call in stop-IsWellFormed f w
call-IsWellFormed random f pauses w = unfold call in pause-IsWellFormed f w
call-IsWellFormed random f resumes w = unfold call in resume-IsWellFormed f w
call-IsWellFormed random f shuffles w =
    unfold call in record { indexed = w.indexed; covered = w.covered; idle = w.idle }
call-IsWellFormed random f (sets_work wp) w =
    unfold call in set_work_farm-IsWellFormed random f wp w
call-IsWellFormed random f (sets_thresholds lo hi) w =
    unfold call in record { indexed = w.indexed; covered = w.covered; idle = w.idle }
call-IsWellFormed random f (accounts midx acc now) w =
    unfold call in account_solution-IsWellFormed f midx acc now w
call-IsWellFormed random f (collects temperature) w =
    let (f', e, w') = collect_data-IsWellFormed temperature f w in unfold call in rw e w'
call-IsWellFormed random f (sets_scrambler n) w =
    unfold call in record { indexed = w.indexed; covered = w.covered; idle = w.idle }
call-IsWellFormed random f (sets_width n) w =
    unfold call in set_nonce_segment_width-IsWellFormed f n w
call-IsWellFormed random f (pauses_miner idx) w =
    unfold call in
    on_miner-IsWellFormed (λ m. Miner.pause m api_request) (λ m. pause-index m) f idx w
call-IsWellFormed random f (resumes_miner idx) w =
    unfold call in
    on_miner-IsWellFormed (λ m. Miner.resume m api_request) (λ m. resume-index m) f idx w

calls-IsWellFormed :
    (random : ℕ → ℕ) (f : Farm) (cs : List Call) → IsWellFormed f → IsWellFormed (calls random f cs)
unfolding calls
calls-IsWellFormed random f [] w = w
calls-IsWellFormed random f (c ∷ cs) w =
    calls-IsWellFormed random (call random f c) cs (call-IsWellFormed random f c w)

-- After any calls on a new farm, the miners are numbered from 0 and each has its entry in the
-- telemetry; there are no miners while the farm is not mining; and a further round of
-- `collectData` runs without an exception.
pub calls-new_farm :
    (random : ℕ → ℕ) (settings : FarmSettings) (cs : List Call) (temperature : Miner → ℕ)
    → let f = calls random (new_farm random settings) cs in
      IsWellFormed f × ((f' : Farm) × (collect_data temperature f ≡ some f'))
calls-new_farm random settings cs temperature =
    let w =
      calls-IsWellFormed random (new_farm random settings) cs
        (unfold new_farm in record { indexed = tt; covered = omega arith; idle = λ h. refl }) in
    let (f', e, w') = collect_data-IsWellFormed temperature _ w in (w, (f', e))
