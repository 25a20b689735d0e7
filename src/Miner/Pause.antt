-- ===== src/Miner/Pause.antt =====
-- libethcore/Miner.cpp: a paused miner has no work, whatever the farm sends it.
use firominer.Base.{ℕ, ◌≡◌, ◌≢◌, refl, ◌∙◌, true, false, arith, List, [], ◌∷◌}
use firominer.Miner.{Miner, WorkPackage, is_work, new_miner, paused, set_work, set_epoch, pause}
use firominer.Miner.{pause_test, resume, trigger_hash_rate_update}
use firominer.Miner.Flags.{MinerPauseEnum, overheating, farm_paused, any-test, set_flag, reset_flag}
use firominer.Miner.Flags.{test-set_flag_self, test-reset_flag_self, test-write_flag_ne}

-- The farm's calls on a miner.
pub data Call : Type 0 where
  sets_work : WorkPackage → Call
  sets_epoch : ℕ → Call
  pauses resumes : MinerPauseEnum → Call
  triggers : Call

unfoldable pub call : Miner → Call → Miner
unfolding set_work set_epoch pause resume trigger_hash_rate_update
call m (sets_work wp) = set_work m wp
call m (sets_epoch ec) = set_epoch m ec
call m (pauses what) = pause m what
call m (resumes what) = resume m what
call m triggers = (trigger_hash_rate_update m).1

unfoldable pub calls : Miner → List Call → Miner
unfolding call
calls m [] = m
calls m (c ∷ cs) = calls (call m c) cs

abbrev Quiet : Miner → Type 0
Quiet m = paused m ≡ true → is_work m.work ≡ false

-- Resuming can only clear a pause.
paused-resume :
    (m : Miner) (what : MinerPauseEnum) → paused (resume m what) ≡ true → paused m ≡ true
unfolding paused resume
paused-resume m overheating h = ground arith
paused-resume m MinerPauseEnum.api_request h = ground arith
paused-resume m farm_paused h = ground arith
paused-resume m MinerPauseEnum.insufficient_memory h = ground arith
paused-resume m MinerPauseEnum.init_epoch_error h = ground arith

call-Quiet : (m : Miner) (c : Call) → Quiet m → Quiet (call m c)
unfolding call
call-Quiet m (sets_work wp) q = λ h. ground arith
call-Quiet m (sets_epoch ec) q = λ h. q (unfold paused in h)
call-Quiet m (pauses what) q = λ h. refl
call-Quiet m (resumes what) q = λ h. q (paused-resume m what h)
call-Quiet m triggers q = λ h. ground arith

calls-Quiet : (m : Miner) (cs : List Call) → Quiet m → Quiet (calls m cs)
unfolding calls
calls-Quiet m [] q = q
calls-Quiet m (c ∷ cs) q = calls-Quiet (call m c) cs (call-Quiet m c q)

-- After any calls on a new miner, a miner that is paused for some reason has no work.
paused-calls :
    (index : ℕ) (cs : List Call)
    → let m = calls (new_miner index) cs in paused m ≡ true → is_work m.work ≡ false
unfolding new_miner
paused-calls index cs is_paused = calls-Quiet (new_miner index) cs (λ h. refl) is_paused

-- Pausing sets its own reason, leaves every other as it was, and takes the work away.
pause_lem :
    (m : Miner) (what other : MinerPauseEnum)
    → other ≢ what
    → (pause_test (pause m what) what ≡ true)
      × (pause_test (pause m what) other ≡ pause_test m other)
      × (paused (pause m what) ≡ true)
      × (is_work (pause m what).work ≡ false)
unfolding pause pause_test paused set_flag
pause_lem m what other ne = (
  test-set_flag_self what m.pause_flags,
  test-write_flag_ne other what true m.pause_flags ne,
  any-test what _ (test-set_flag_self what m.pause_flags),
  refl,
)

-- Resuming clears its own reason only: the miner stays paused while any other reason holds.
resume_lem :
    (m : Miner) (what other : MinerPauseEnum)
    → other ≢ what
    → pause_test m other ≡ true
    → (pause_test (resume m what) what ≡ false)
      × (pause_test (resume m what) other ≡ true)
      × (paused (resume m what) ≡ true)
unfolding resume pause_test paused reset_flag
resume_lem m what other ne h =
    let kept = test-write_flag_ne other what false m.pause_flags ne ∙ h in
    (test-reset_flag_self what m.pause_flags, kept, any-test other _ kept)
