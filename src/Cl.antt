-- ===== src/Cl.antt =====
-- libethash-cl/CLMiner.cpp: the work loop of a miner on an OpenCL device. The device, the compiler
-- and `initEpoch` are parameters: what they answer stands in the turn. A kernel is compiled by a
-- thread of its own, which is taken to be done when it is joined, with the epoch of its start. An
-- error of OpenCL, which ends the thread, is left out.
pub mod Launches
pub mod Kernels
use firominer.Base.{
  ℕ, ◌+◌, ◌-◌, ◌/◌, ◌%◌, ◌^◌, Bool, true, false, Option, none, some, List, [], ◌∷◌,
}
use firominer.Base.{◌++◌, map, ◌==◌, if◌then◌else◌}
use firominer.Miner.{WorkPackage, is_work, no_work, get_boundary}

-- A kernel by its period, and by the epoch whose constants were compiled into it.
pub record ClKernel : Type 0 where
  pub period : ℕ
  pub epoch : ℕ

-- A kernel that has been put into the queue, with its work and its first nonce.
pub record Launch : Type 0 where
  pub kernel : Option ClKernel
  pub work : WorkPackage
  pub from : ℕ

-- The variables of the loop, and the members that it uses. The latest launch stands first.
pub record ClMiner : Type 0 where
  pub current : WorkPackage
  pub start_nonce : ℕ
  pub old_period_seed : Option ℕ
  pub old_epoch : Option ℕ
  pub next_period : ℕ
  pub search_kernel : Option ClKernel
  pub next_search_kernel : Option ClKernel
  pub launches : List Launch
  pub submitted : List (WorkPackage × ℕ)
  pub init_error : Bool
  pub ended : Bool

-- What a turn of the loop meets: whether to stop, the work, the epoch of the context, whether a
-- compilation and `initEpoch` succeed, and the results of the kernel before.
pub record Turn : Type 0 where
  pub stop : Bool
  pub next : WorkPackage
  pub context : ℕ
  pub compiles : Bool
  pub inits : Bool
  pub results : List ℕ

unfoldable pub new_cl : ClMiner
new_cl = record {
  current = no_work;
  start_nonce = 0;
  old_period_seed = none;
  old_epoch = none;
  next_period = 0;
  search_kernel = none;
  next_search_kernel = none;
  launches = [];
  submitted = [];
  init_error = false;
  ended = false;
}

abbrev pub is_same : Option ℕ → ℕ → Bool
is_same none n = false
is_same (some m) n = m == n

-- `asyncCompile` for `m_nextProgpowPeriod`. Where the build fails, the kernel is as before, and the
-- miner is paused for `PauseDueToInitEpochError`.
unfoldable pub async_compile : Turn → ClMiner → ClMiner
async_compile t c =
    if t.compiles
    then record c {
      next_search_kernel = some (record { period = c.next_period; epoch = t.context });
    }
    else record c { init_error = true }

-- The first work: its period is compiled.
unfoldable pub first_compile : Turn → ℕ → ClMiner → ClMiner
unfolding async_compile
first_compile t period c =
    if c.next_period == 0 then async_compile t (record c { next_period = period }) else c

-- Another period: the kernel that was compiled ahead is loaded, if it is of this period, and the one
-- of the next period is compiled.
unfoldable pub load_period : Turn → ℕ → ClMiner → ClMiner
unfolding async_compile
load_period t period c =
    let c1 =
      if c.next_period == period then c else async_compile t (record c { next_period = period }) in
    async_compile t (record c1 {
      search_kernel = c1.next_search_kernel;
      old_period_seed = some period;
      next_period = (period + 1) % 2 ^ 64;
    })

-- The end of a turn: the kernel runs, the results of the one before are submitted, and the next
-- nonces follow. `global` is the number of nonces of a kernel.
unfoldable pub launch : ℕ → Turn → ClMiner → ClMiner
launch global t c = record c {
  launches = record { kernel = c.search_kernel; work = t.next; from = c.start_nonce } ∷ c.launches;
  submitted =
      map (λ gid. (c.current, (c.current.start_nonce + gid) % 2 ^ 64)) t.results ++ c.submitted;
  current = record t.next { start_nonce = c.start_nonce };
  start_nonce = (c.start_nonce + global) % 2 ^ 64;
}

-- Where the upper 64 bits of the boundary are the greatest, the job is skipped. The assertion that
-- they are not 0 is left out.
unfoldable pub launch_new : ℕ → Turn → ClMiner → ClMiner
unfolding launch
launch_new global t c =
    if get_boundary t.next / 2 ^ 192 == 2 ^ 64 - 1
    then c
    else launch global t (record c { start_nonce = t.next.start_nonce })

abbrev pub init_epoch : Turn → ℕ → ClMiner → ClMiner
init_epoch t epoch c =
    if t.inits then record c { old_epoch = some epoch } else record c { ended = true }

abbrev pub switch_epoch : ℕ → Turn → ClMiner → Option ℕ → ClMiner
switch_epoch global t c none = launch_new global t c
switch_epoch global t c (some epoch) =
    if is_same c.old_epoch epoch then launch_new global t c else init_epoch t epoch c

-- Another header. Without a block the exception of `value` ends the thread.
unfoldable pub switch_work : ℕ → Turn → ClMiner → Option ℕ → ClMiner
unfolding first_compile load_period launch_new
switch_work global t c none = record c { ended = true }
switch_work global t c (some period) =
    let c1 = first_compile t period c in
    if is_same c1.old_period_seed period
    then switch_epoch global t c1 t.next.epoch
    else load_period t period c1

-- A turn; a `continue` drops the results that it has read.
unfoldable pub cl_turn : ℕ → ClMiner → Turn → ClMiner
unfolding switch_work launch
cl_turn global c t =
    if c.ended
    then c
    else if t.stop
    then record c { ended = true }
    else if is_work t.next
    then if c.current.header == t.next.header
      then launch global t c
      else switch_work global t c t.next.block
    else c

unfoldable pub cl_turns : ℕ → ClMiner → List Turn → ClMiner
unfolding cl_turn
cl_turns global c [] = c
cl_turns global c (t ∷ ts) = cl_turns global (cl_turn global c t) ts
