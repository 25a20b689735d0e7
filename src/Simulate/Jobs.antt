-- ===== src/Simulate/Jobs.antt =====
-- libpoolprotocols/testing/SimulateClient.cpp: the jobs of a simulation.
use firominer.Base.{
  ℕ, suc, ◌+◌, ◌/◌, ◌≤◌, Bool, true, false, List, [], ◌∷◌, some, ◌≡◌, refl, ap, arith,
}
use firominer.Simulate.{Simulate, sim_submit_solution, sim_round, sim_start}

-- Solutions that arrive, and rounds of the work loop, each with a random header.
pub data SimEvent : Type 0 where
  solves : Bool → ℕ → ℕ → SimEvent
  rounds : ℕ → SimEvent

-- A flag that counts as one solution.
abbrev pub flag_count : Bool → ℕ
flag_count true = 1
flag_count false = 0

abbrev pub solution_count : List SimEvent → ℕ
solution_count [] = 0
solution_count (solves verified delay midx ∷ es) = suc (solution_count es)
solution_count (rounds header ∷ es) = solution_count es

module _ (epoch_length : ℕ) (seed_of_epoch : ℕ → ℕ) (difficulty_boundary : ℕ) where
  unfoldable pub sim_event : SimEvent → Simulate → Simulate
  unfolding sim_submit_solution sim_round
  sim_event (solves verified delay midx) s = sim_submit_solution verified delay midx s
  sim_event (rounds header) s = sim_round epoch_length seed_of_epoch difficulty_boundary header s

  unfoldable pub sim_events : List SimEvent → Simulate → Simulate
  unfolding sim_event
  sim_events [] s = s
  sim_events (e ∷ es) s = sim_events es (sim_event e s)

  -- The current job is one of the block of the simulation.
  pub record Tracks (boundary : ℕ) (s : Simulate) : Type 0 where
    pub has_block : s.current.block ≡ some s.block
    pub has_epoch : s.current.epoch ≡ some (s.block / epoch_length)
    pub has_seed : s.current.seed ≡ seed_of_epoch (s.block / epoch_length)
    pub has_boundary : s.current.boundary ≡ boundary

  sim_event-Tracks :
      (boundary : ℕ) (e : SimEvent) (s : Simulate)
      → Tracks boundary s
      → Tracks boundary (sim_event e s)
  unfolding sim_event sim_submit_solution sim_round
  sim_event-Tracks boundary (solves verified delay midx) s t = ground (arith, t)
  sim_event-Tracks boundary (rounds header) s t = ground (arith, t)

  sim_event-block :
      (e : SimEvent) (es : List SimEvent) (s : Simulate)
      → (sim_event e s).block + flag_count (sim_event e s).solution_arrived + solution_count es
        ≤ s.block + flag_count s.solution_arrived + solution_count (e ∷ es)
  unfolding sim_event sim_submit_solution sim_round
  sim_event-block (solves verified delay midx) es s = ground arith
  sim_event-block (rounds header) es s = ground arith

  sim_events-Tracks :
      (boundary : ℕ) (es : List SimEvent) (s : Simulate)
      → Tracks boundary s
      → Tracks boundary (sim_events es s)
  unfolding sim_events
  sim_events-Tracks boundary [] s t = t
  sim_events-Tracks boundary (e ∷ es) s t =
      sim_events-Tracks boundary es (sim_event e s) (sim_event-Tracks boundary e s t)

  sim_events_bound :
      (es : List SimEvent) (s : Simulate)
      → (sim_events es s).block + flag_count (sim_events es s).solution_arrived
        ≤ s.block + flag_count s.solution_arrived + solution_count es
  unfolding sim_events
  sim_events_bound [] s = omega arith
  sim_events_bound (e ∷ es) s =
      omega (arith, sim_events_bound es (sim_event e s), sim_event-block e es s)

  -- From the start of the work loop on, with no solution yet, whatever solutions arrive and whatever
  -- rounds the loop makes: the job has the block of the simulation, its epoch and seed are those of
  -- that block, and its boundary is that of the difficulty; and the block has grown by the count of
  -- the solutions at most, since those between two rounds make one job together.
  pub sim_events-sim_start :
      (header : ℕ) (es : List SimEvent) (s : Simulate)
      → s.solution_arrived ≡ false
      → let started = sim_start epoch_length seed_of_epoch difficulty_boundary header s in
        let s' = sim_events es started in
        Tracks difficulty_boundary s' × (s'.block ≤ s.block + solution_count es)
  unfolding sim_start
  sim_events-sim_start header es s fresh =
      let started = sim_start epoch_length seed_of_epoch difficulty_boundary header s in
      let none_arrived : flag_count started.solution_arrived ≡ 0 = ap flag_count fresh in
      (
        sim_events-Tracks difficulty_boundary es started
            (record { has_block = refl; has_epoch = refl; has_seed = refl; has_boundary = refl }),
        omega (arith, sim_events_bound es started, none_arrived),
      )
