-- ===== src/Cpu/Found.antt =====
-- libethash-cpu/CPUMiner.cpp: a search that is left alone finds a solution if there is one.
use firominer.Base.{
  ℕ, zero, suc, ◌+◌, ◌*◌, ◌%◌, ◌^◌, ◌<◌, ◌≡◌, refl, ap, ◌∙◌, arith, Bool, true, false,
}
use firominer.Base.{none, some, ◌∷◌, replicate, if◌then◌else◌, subst, Option-cases, inl, inr}
use firominer.Miner.{WorkPackage}
use firominer.Cpu.{
  Cpu, took, loops, searches, search_block, after_block, cpu_thread, runs, cpu_step,
}
use firominer.Cpu.{cpu_steps, block_size}
use firominer.Cpu.Search.{nonce_at, BlockDone, IsFirst, search_block-BlockDone}

module _ (solves : WorkPackage → ℕ → Bool) where
  -- Steps of the thread that is not told to stop.
  abbrev pub runs_alone : ℕ → Cpu → Cpu
  runs_alone k c = cpu_steps solves c (replicate k (runs false))

  -- Without news a thread at the head of its loop stays there.
  idle_step : (c : Cpu) → c.place ≡ loops → c.new_work ≡ false → cpu_step solves c (runs false) ≡ c
  unfolding cpu_step cpu_thread
  idle_step c p k =
      ap (cpu_thread solves false c) p
      ∙ ap (λ b. if b then record c { new_work = false; place = took } else c) k

  idles : (k : ℕ) (c : Cpu) → c.place ≡ loops → c.new_work ≡ false → runs_alone k c ≡ c
  unfolding cpu_steps
  idles zero c p e = refl
  idles (suc k) c p e = ap (runs_alone k) (idle_step c p e) ∙ idles k c p e

  search_step :
      (c : Cpu) (w : WorkPackage) (nonce : ℕ)
      → c.place ≡ searches w nonce
      → c.new_work ≡ false
      → cpu_step solves c (runs false)
        ≡ after_block solves c w nonce (search_block solves w block_size nonce)
  unfolding cpu_step cpu_thread
  search_step c w nonce p e =
      ap (cpu_thread solves false c) p
      ∙ ap
          (λ b.
            if b
            then record c { place = loops }
            else after_block solves c w nonce (search_block solves w block_size nonce))
          e

  -- A search that no news interrupts and that has left out no nonce so far, submits the first
  -- solution within as many blocks of 64 nonces as it takes to reach one, and goes back to the head
  -- of the loop; further steps then change nothing.
  pub runs_alone-finds :
      (k : ℕ) (c : Cpu) (w : WorkPackage) (nonce done at : ℕ)
      → c.place ≡ searches w nonce
      → c.new_work ≡ false
      → nonce ≡ nonce_at solves w.start_nonce done
      → ((i : ℕ) → i < done → solves w (nonce_at solves w.start_nonce i) ≡ false)
      → solves w (nonce_at solves w.start_nonce at) ≡ true
      → at < done + block_size * k
      → (n : ℕ) × IsFirst solves (w, n)
        × (runs_alone k c ≡ record c { place = loops; submitted = (w, n) ∷ c.submitted })
  unfolding cpu_steps
  runs_alone-finds zero c w nonce done at p e s f t l =
      absurd (ground (arith, t, f at (omega arith)))
  runs_alone-finds (suc k) c w nonce done at p e s f t l =
      let block = search_block solves w block_size nonce in
      let left = search_block-BlockDone solves w block_size done nonce s f in
      elim (Option-cases block) [
        | inl failed ↦
            let c' = after_block solves c w nonce none in
            let (n, first, q) =
              runs_alone-finds k c' w ((nonce + block_size) % 2 ^ 64) (done + block_size) at refl e
                (omega arith) (subst (BlockDone solves w (done + block_size)) failed left) t
                (omega arith) in
            (
              n,
              first,
              ap (runs_alone k)
                    (search_step c w nonce p e ∙ ap (after_block solves c w nonce) failed)
                  ∙ q,
            )
        | inr (n, found) ↦ (
          n,
          subst (BlockDone solves w (done + block_size)) found left,
          ap (runs_alone k) (search_step c w nonce p e ∙ ap (after_block solves c w nonce) found)
              ∙ idles k (after_block solves c w nonce (some n)) refl e,
        )
      ]
