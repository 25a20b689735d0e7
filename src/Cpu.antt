-- ===== src/Cpu.antt =====
-- libethash-cpu/CPUMiner.cpp: the work loop of a miner on a CPU, and its search. One iteration of a
-- loop, and each assignment of another thread, is one step. Whether a nonce solves some work, as
-- libcrypto decides it, and the start of the device are parameters.
pub mod Search
pub mod Found
use firominer.Base.{
  ℕ, zero, suc, ◌+◌, ◌%◌, ◌^◌, Bool, true, false, ◌&&◌, Option, none, some, List, [],
}
use firominer.Base.{◌∷◌, String, str_eq, if◌then◌else◌}
use firominer.Miner.{WorkPackage, is_work}

-- Where the thread stands: at the head of its loop, after it has taken the flag, before the next
-- block of a search, or at its end.
pub data CpuPlace : Type 0 where
  loops took : CpuPlace
  searches : WorkPackage → ℕ → CpuPlace
  ended : CpuPlace

-- `m_new_work` is the flag. `pending` says that `setWork` has written the work and has not yet kicked
-- the miner. The latest solution stands first.
pub record Cpu : Type 0 where
  pub new_work : Bool
  pub pending : Bool
  pub work : WorkPackage
  pub place : CpuPlace
  pub submitted : List (WorkPackage × ℕ)

abbrev pub block_size : ℕ
block_size = 64

abbrev pub has_value : Option ℕ → Bool
has_value none = false
has_value (some n) = true

module _ (solves : WorkPackage → ℕ → Bool) where
  -- The loop over a block of nonces; it breaks at a solution.
  unfoldable pub search_block : WorkPackage → ℕ → ℕ → Option ℕ
  search_block w zero nonce = none
  search_block w (suc n) nonce =
      let rest = search_block w n ((nonce + 1) % 2 ^ 64) in
      if solves w nonce then some nonce else rest

  abbrev pub after_block : Cpu → WorkPackage → ℕ → Option ℕ → Cpu
  after_block c w nonce none = record c { place = searches w ((nonce + block_size) % 2 ^ 64) }
  after_block c w nonce (some n) = record c { place = loops; submitted = (w, n) ∷ c.submitted }

  -- `search`, from a start nonce of 64 bits: the work has an epoch and a block, or an exception ends
  -- the thread.
  abbrev pub begin_search : Cpu → WorkPackage → Cpu
  begin_search c w =
      if str_eq w.algo "progpow" && has_value w.epoch && has_value w.block
      then record c { place = searches w (w.start_nonce % 2 ^ 64) }
      else record c { place = ended }

  -- A step of the thread at a place, with the answer of `shouldStop`.
  unfoldable pub cpu_thread : Bool → Cpu → CpuPlace → Cpu
  unfolding search_block
  cpu_thread stop c loops =
      if stop
      then record c { place = ended }
      else if c.new_work
      then record c { new_work = false; place = took }
      else c
  cpu_thread stop c took =
      if is_work c.work then begin_search c c.work else record c { place = loops }
  cpu_thread stop c (searches w nonce) =
      if c.new_work
      then record c { place = loops }
      else after_block c w nonce (search_block w block_size nonce)
  cpu_thread stop c ended = c

-- `setWork` writes the work and then kicks the miner; `kick_miner` is called on its own too.
pub data CpuEvent : Type 0 where
  writes_work : WorkPackage → CpuEvent
  kicks : CpuEvent
  runs : Bool → CpuEvent

module _ (solves : WorkPackage → ℕ → Bool) where
  unfoldable pub cpu_step : Cpu → CpuEvent → Cpu
  unfolding cpu_thread
  cpu_step c (writes_work w) = record c { work = w; pending = true }
  cpu_step c kicks = record c { new_work = true; pending = false }
  cpu_step c (runs stop) = cpu_thread solves stop c c.place

  unfoldable pub cpu_steps : Cpu → List CpuEvent → Cpu
  unfolding cpu_step
  cpu_steps c [] = c
  cpu_steps c (e ∷ es) = cpu_steps (cpu_step c e) es

-- The thread as `workLoop` begins, with the device ready or not.
unfoldable pub new_cpu : Bool → WorkPackage → Cpu
new_cpu ready w = record {
  new_work = false;
  pending = false;
  work = w;
  place = if ready then loops else ended;
  submitted = [];
}
