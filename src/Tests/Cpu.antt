-- ===== src/Tests/Cpu.antt =====
-- The miners on a CPU and on an OpenCL device at concrete inputs.
use firominer.Base.{ℕ, ◌≡◌, refl, arith, Bool, true, false, some, [], ◌∷◌, ◌==◌}
use firominer.Miner.{WorkPackage, no_work, get_boundary}
use firominer.Cl.{ClMiner, new_cl, cl_turns, cl_turn, switch_work, first_compile, load_period}
use firominer.Cl.{launch_new, launch, async_compile}
use firominer.Cl.Kernels.{job_turn, cl_turns-compiled_ahead}
use firominer.Cpu.{Cpu, new_cpu, cpu_steps, searches, loops, writes_work, kicks, runs}
use firominer.Cpu.Search.{IsSound, IsFirst, cpu_steps-IsSound}
use firominer.Cpu.Found.{runs_alone, runs_alone-finds}

abbrev block_work : WorkPackage
block_work = record no_work { header = 99; epoch = some 5; block = some 6000; start_nonce = 1000 }

-- One nonce in the second block of the search.
abbrev solves_1070 : WorkPackage → ℕ → Bool
solves_1070 w nonce = nonce == 1070

cpu_steps-IsSound_example : IsSound solves_1070 (
    cpu_steps solves_1070
      (new_cpu true no_work)
      (writes_work block_work ∷ kicks ∷ runs false ∷ runs false ∷ runs false ∷ []))
cpu_steps-IsSound_example =
    cpu_steps-IsSound solves_1070 true no_work
      (writes_work block_work ∷ kicks ∷ runs false ∷ runs false ∷ runs false ∷ [])

abbrev searching : Cpu
searching = record {
  new_work = false;
  pending = false;
  work = block_work;
  place = searches block_work 1000;
  submitted = [];
}

runs_alone-finds_example :
    (n : ℕ) × IsFirst solves_1070 (block_work, n)
    × (runs_alone solves_1070 2 searching
        ≡ record searching { place = loops; submitted = (block_work, n) ∷ [] })
runs_alone-finds_example =
    runs_alone-finds solves_1070 2 searching block_work 1000 0 70 refl refl refl
      (λ i h. absurd (omega arith)) refl (omega arith)

abbrev end_of_epoch_work : WorkPackage
end_of_epoch_work = record no_work {
  header = 98;
  epoch = some 4;
  block = some 5999;
  start_nonce = 7;
}

-- A device after three turns with the last block of epoch 4: it runs that block, and has compiled
-- block 6000 ahead.
abbrev device : ClMiner
device =
    let turn =
      job_turn 512 end_of_epoch_work 5999 4 (record { period = 5999; epoch = 4 }) true [] in
    cl_turns 512 new_cl (turn ∷ turn ∷ turn ∷ [])

cl_turns-compiled_ahead_example :
    let turn = job_turn 512 block_work 6000 5 (record { period = 6000; epoch = 4 }) true (3 ∷ []) in
    ((cl_turns 512 device (turn ∷ turn ∷ turn ∷ [])).launches
      ≡ record {
        kernel = some (record { period = 6000; epoch = 4 });
        work = block_work;
        from = 1000;
      }
        ∷ device.launches)
    × ((cl_turns 512 device (turn ∷ [])).submitted ≡ device.submitted)
unfolding new_cl get_boundary cl_turns cl_turn switch_work first_compile load_period launch_new
    launch async_compile
cl_turns-compiled_ahead_example =
    cl_turns-compiled_ahead 512 block_work 6000 5 (record { period = 6000; epoch = 4 }) true
      (3 ∷ []) device
      (record {
        goes_on = refl;
        is_other = refl;
        has_work = refl;
        has_block = refl;
        has_epoch = refl;
        boundary = refl;
      })
      (λ e. absurd (ground (arith, e))) (λ e. absurd (ground (arith, e))) refl
      (λ e. absurd (omega arith)) refl
