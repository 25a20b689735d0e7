-- ===== src/Cl/Kernels.antt =====
-- libethash-cl/CLMiner.cpp: the kernel that a job at the beginning of an epoch runs with.
use firominer.Base.{
  ℕ, ◌-◌, ◌/◌, ◌^◌, ◌≡◌, ◌≢◌, arith, Bool, true, false, some, List, [], ◌∷◌, ◌==◌, sym,
}
use firominer.Base.{ap, ◌∙◌}
use firominer.Miner.{WorkPackage, is_work, get_boundary}
use firominer.Cl.{
  ClKernel, Launch, ClMiner, Turn, async_compile, first_compile, load_period, launch,
}
use firominer.Cl.{launch_new, switch_work, cl_turn, cl_turns}

-- A miner that meets a job of another header, of block `period` and of `epoch`.
pub record Meets (w : WorkPackage) (period epoch : ℕ) (c : ClMiner) : Type 0 where
  pub goes_on : c.ended ≡ false
  pub is_other : (c.current.header == w.header) ≡ false
  pub has_work : is_work w ≡ true
  pub has_block : w.block ≡ some period
  pub has_epoch : w.epoch ≡ some epoch
  pub boundary : (get_boundary w / 2 ^ 192 == 2 ^ 64 - 1) ≡ false

module _ (global : ℕ) (w : WorkPackage) (period epoch : ℕ) (k : ClKernel) (compiles : Bool)
    (results : List ℕ) where
  -- A turn with the job, while the context is that of its epoch.
  abbrev pub job_turn : Turn
  job_turn = record {
    stop = false;
    next = w;
    context = epoch;
    compiles = compiles;
    inits = true;
    results = results;
  }

  loads :
      (c : ClMiner)
      → Meets w period epoch c
      → c.old_period_seed ≢ some period
      → c.next_period ≡ period
      → period ≢ 0
      → c.next_search_kernel ≡ some k
      → let c' = cl_turn global c job_turn in
        (c'.ended ≡ false)
        × (c'.current ≡ c.current)
        × (c'.launches ≡ c.launches)
        × (c'.old_period_seed ≡ some period)
        × (c'.search_kernel ≡ some k)
        × (c'.old_epoch ≡ c.old_epoch)
        × (c'.submitted ≡ c.submitted)
  unfolding cl_turn switch_work first_compile load_period async_compile
  loads c m o n z p = ground (arith, o, n, z, p)

  inits :
      (c : ClMiner)
      → Meets w period epoch c
      → c.old_period_seed ≡ some period
      → c.old_epoch ≢ some epoch
      → c.search_kernel ≡ some k
      → let c' = cl_turn global c job_turn in
        (c'.ended ≡ false)
        × (c'.current ≡ c.current)
        × (c'.launches ≡ c.launches)
        × (c'.old_period_seed ≡ some period)
        × (c'.search_kernel ≡ some k)
        × (c'.old_epoch ≡ some epoch)
  unfolding cl_turn switch_work first_compile async_compile
  inits c m o n p = ground (arith, o, n, p)

  starts :
      (c : ClMiner)
      → Meets w period epoch c
      → c.old_period_seed ≡ some period
      → c.old_epoch ≡ some epoch
      → c.search_kernel ≡ some k
      → (cl_turn global c job_turn).launches
        ≡ record { kernel = some k; work = w; from = w.start_nonce } ∷ c.launches
  unfolding cl_turn switch_work first_compile async_compile launch_new launch
  starts c m o n p = ground (arith, o, n, p)

  still-Meets :
      (c c' : ClMiner)
      → Meets w period epoch c
      → c'.ended ≡ false
      → c'.current ≡ c.current
      → Meets w period epoch c'
  still-Meets c c' m e same = record {
    goes_on = e;
    is_other = rw same (m.is_other);
    has_work = m.has_work;
    has_block = m.has_block;
    has_epoch = m.has_epoch;
    boundary = m.boundary;
  }

  -- A miner that meets the first job of a block, whose kernel `k` it has compiled ahead, and of
  -- another epoch: it runs the job with `k` in the third turn, whatever epoch's constants are
  -- compiled into `k`; and the first of these turns drops the results of the kernel before.
  pub cl_turns-compiled_ahead :
      (c : ClMiner)
      → Meets w period epoch c
      → c.old_period_seed ≢ some period
      → c.old_epoch ≢ some epoch
      → c.next_period ≡ period
      → period ≢ 0
      → c.next_search_kernel ≡ some k
      → ((cl_turns global c (job_turn ∷ job_turn ∷ job_turn ∷ [])).launches
          ≡ record { kernel = some k; work = w; from = w.start_nonce } ∷ c.launches)
        × ((cl_turns global c (job_turn ∷ [])).submitted ≡ c.submitted)
  unfolding cl_turns
  cl_turns-compiled_ahead c m other_period other_epoch n z p =
      let c1 = cl_turn global c job_turn in
      let c2 = cl_turn global c1 job_turn in
      let (e1, same1, l1, o1, p1, ep1, s1) = loads c m other_period n z p in
      let m1 = still-Meets c c1 m e1 same1 in
      let (e2, same2, l2, o2, p2, ep2) = inits c1 m1 o1 (λ q. other_epoch (sym ep1 ∙ q)) p1 in
      let m2 = still-Meets c1 c2 m1 e2 same2 in
      (starts c2 m2 o2 ep2 p2 ∙ ap (λ ls. launched ∷ ls) (l2 ∙ l1), s1)
    where
      launched : Launch
      launched = record { kernel = some k; work = w; from = w.start_nonce }
