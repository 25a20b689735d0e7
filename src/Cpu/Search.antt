-- ===== src/Cpu/Search.antt =====
-- libethash-cpu/CPUMiner.cpp: what is searched, and what is submitted.
use firominer.Base.{
  ℕ, zero, suc, ◌+◌, ◌%◌, ◌^◌, ◌<◌, ◌≡◌, ◌⊎◌, inl, inr, refl, arith, Bool, true, false,
}
use firominer.Base.{Option, none, some, List, [], ◌∷◌, All, if◌then◌else◌, Bool-cases, subst, ◌&&◌}
use firominer.Base.{str_eq, ℕ_discrete}
use firominer.Miner.{WorkPackage, is_work}
use firominer.Cpu.{
  Cpu, CpuPlace, loops, took, searches, ended, search_block, after_block, begin_search,
}
use firominer.Cpu.{cpu_thread, CpuEvent, writes_work, kicks, runs, cpu_step, cpu_steps, new_cpu}
use firominer.Cpu.{block_size, has_value}

module _ (solves : WorkPackage → ℕ → Bool) where
  -- The nonce at a distance from the start, with wrap-around.
  abbrev pub nonce_at : ℕ → ℕ → ℕ
  nonce_at start i = (start + i) % 2 ^ 64

  -- The thread searches some work, at a multiple of the block from its start, and no nonce before
  -- solves it; and, unless a new work has been announced or is about to be, it is the work that the
  -- miner has.
  abbrev pub Searches : Cpu → CpuPlace → Type 0
  Searches c (searches w nonce) =
      ((c.new_work ≡ true) ⊎ ((c.pending ≡ true) ⊎ (w ≡ c.work)))
      × ((done : ℕ) × (nonce ≡ nonce_at w.start_nonce done)
          × ((i : ℕ) → i < done → solves w (nonce_at w.start_nonce i) ≡ false))
  Searches c _ = Unit {0}

  -- What is submitted is the first solution from the start of its work on.
  abbrev pub IsFirst : WorkPackage × ℕ → Type 0
  IsFirst (w, n) =
      (solves w n ≡ true)
      × ((at : ℕ) × (n ≡ nonce_at w.start_nonce at)
          × ((i : ℕ) → i < at → solves w (nonce_at w.start_nonce i) ≡ false))

  -- What a block leaves: no solution up to its end, or the first one.
  abbrev pub BlockDone : WorkPackage → ℕ → Option ℕ → Type 0
  BlockDone w end none = (i : ℕ) → i < end → solves w (nonce_at w.start_nonce i) ≡ false
  BlockDone w end (some n) = IsFirst (w, n)

  pub search_block-BlockDone :
      (w : WorkPackage) (n done nonce : ℕ)
      → nonce ≡ nonce_at w.start_nonce done
      → ((i : ℕ) → i < done → solves w (nonce_at w.start_nonce i) ≡ false)
      → BlockDone w (done + n) (search_block solves w n nonce)
  unfolding search_block
  search_block-BlockDone w zero done nonce e f = λ i h. f i (omega arith)
  search_block-BlockDone w (suc n) done nonce e f = elim (Bool-cases (solves w nonce)) [
    | inl found ↦ rw found (found, (done, e, f))
    | inr not_found ↦ rw not_found (
        let next : (nonce + 1) % 2 ^ 64 ≡ nonce_at w.start_nonce (done + 1) = omega arith in
        let further : done + 1 + n ≡ done + suc n = omega arith in
        subst (λ k. BlockDone w k (search_block solves w n ((nonce + 1) % 2 ^ 64))) further
          (search_block-BlockDone w n (done + 1) ((nonce + 1) % 2 ^ 64) next
            (λ i h. one_more i h not_found)))
  ]
    where
      one_more :
          (i : ℕ)
          → i < done + 1
          → solves w nonce ≡ false
          → solves w (nonce_at w.start_nonce i) ≡ false
      one_more i h b = elim (ℕ_discrete i done) [
        | yes same ↦ rw (same, ← e) b
        | no other ↦ f i (omega arith)
      ]

  pub record IsSound (c : Cpu) : Type 0 where
    pub searching : Searches c c.place
    pub submitted : All IsFirst c.submitted

  if-IsSound : (b : Bool) (c c' : Cpu) → IsSound c → IsSound c' → IsSound (if b then c else c')
  if-IsSound true c c' h h' = h
  if-IsSound false c c' h h' = h'

  after_block-IsSound :
      (c : Cpu) (w : WorkPackage) (nonce done : ℕ) (o : Option ℕ)
      → ((c.new_work ≡ true) ⊎ ((c.pending ≡ true) ⊎ (w ≡ c.work)))
      → nonce ≡ nonce_at w.start_nonce done
      → BlockDone w (done + block_size) o
      → All IsFirst c.submitted
      → IsSound (after_block solves c w nonce o)
  after_block-IsSound c w nonce done none u e f a = record {
    searching = (u, (done + block_size, omega arith, f));
    submitted = a;
  }
  after_block-IsSound c w nonce done (some n) u e f a = record {
    searching = tt;
    submitted = (f, a);
  }

  begin_search-IsSound :
      (c : Cpu) → All IsFirst c.submitted → IsSound (begin_search solves c c.work)
  begin_search-IsSound c a =
      if-IsSound (str_eq c.work.algo "progpow" && has_value c.work.epoch && has_value c.work.block)
        _ _
        (record {
          searching = (inr (inr refl), (0, omega arith, λ i h. absurd (omega arith)));
          submitted = a;
        })
        (record { searching = tt; submitted = a })

  cpu_thread-IsSound :
      (stop : Bool) (c : Cpu) (p : CpuPlace)
      → Searches c p
      → IsSound c
      → IsSound (cpu_thread solves stop c p)
  unfolding cpu_thread
  cpu_thread-IsSound stop c loops s h =
      if-IsSound stop _ _ (record { searching = tt; submitted = h.submitted })
        (if-IsSound c.new_work _ _ (record { searching = tt; submitted = h.submitted }) h)
  cpu_thread-IsSound stop c took s h =
      if-IsSound (is_work c.work) _ _ (begin_search-IsSound c h.submitted)
        (record { searching = tt; submitted = h.submitted })
  cpu_thread-IsSound stop c (searches w nonce) (u, (done, e, f)) h =
      if-IsSound c.new_work _ _ (record { searching = tt; submitted = h.submitted })
        (after_block-IsSound c w nonce done (search_block solves w block_size nonce) u e
          (search_block-BlockDone w block_size done nonce e f) h.submitted)
  cpu_thread-IsSound stop c ended s h = h

  written-Searches :
      (c : Cpu) (w : WorkPackage) (p : CpuPlace)
      → Searches c p
      → Searches (record c { work = w; pending = true }) p
  written-Searches c w loops s = tt
  written-Searches c w took s = tt
  written-Searches c w (searches x nonce) s = (inr (inl refl), s.1)
  written-Searches c w ended s = tt

  kicked-Searches :
      (c : Cpu) (p : CpuPlace)
      → Searches c p
      → Searches (record c { new_work = true; pending = false }) p
  kicked-Searches c loops s = tt
  kicked-Searches c took s = tt
  kicked-Searches c (searches x nonce) s = (inl refl, s.1)
  kicked-Searches c ended s = tt

  cpu_step-IsSound : (c : Cpu) (e : CpuEvent) → IsSound c → IsSound (cpu_step solves c e)
  unfolding cpu_step
  cpu_step-IsSound c (writes_work w) h = record {
    searching = written-Searches c w c.place h.searching;
    submitted = h.submitted;
  }
  cpu_step-IsSound c kicks h = record {
    searching = kicked-Searches c c.place h.searching;
    submitted = h.submitted;
  }
  cpu_step-IsSound c (runs stop) h = cpu_thread-IsSound stop c c.place h.searching h

  steps-IsSound : (c : Cpu) (es : List CpuEvent) → IsSound c → IsSound (cpu_steps solves c es)
  unfolding cpu_steps
  steps-IsSound c [] h = h
  steps-IsSound c (e ∷ es) h = steps-IsSound (cpu_step solves c e) es (cpu_step-IsSound c e h)

  begun : (ready : Bool) (c : Cpu) → Searches c (if ready then loops else ended)
  begun true c = tt
  begun false c = tt

  -- In any order of the thread's steps, of work that is written and of kicks: each solution that has
  -- been submitted is the first one from the start nonce of its work on, with wrap-around at 2 ^ 64;
  -- and while the thread searches, it has left out no nonce, and it searches the work that the miner
  -- has, unless it has been told of another or is about to be.
  pub cpu_steps-IsSound :
      (ready : Bool) (w : WorkPackage) (es : List CpuEvent)
      → IsSound (cpu_steps solves (new_cpu ready w) es)
  cpu_steps-IsSound ready w es =
      steps-IsSound (new_cpu ready w) es
        (unfold new_cpu in record { searching = begun ready (new_cpu ready w); submitted = tt })
