-- ===== src/Farm/Work.antt =====
-- libethcore/Farm.cpp: `setWork`, which gives each miner the work with a start nonce of its own.
-- `pow` and `log2` are taken to be exact where the source truncates them.
use firominer.Base.{
  ℕ, zero, suc, ◌+◌, ◌-◌, ◌*◌, ◌%◌, ◌^◌, Bool, false, ◌&&◌, Option, none, some, List,
}
use firominer.Base.{[], ◌∷◌, map, length, leb, ltb, ◌==◌, if◌then◌else◌}
use firominer.Miner.{Miner, WorkPackage, set_work, set_epoch}
use firominer.Farm.{Farm, shuffle}

-- The whole part of `log2(pow(2, bits) / count)`, searched from `w` down; 0 where that is negative.
unfoldable pub whole_log2 : ℕ → ℕ → ℕ → ℕ
whole_log2 zero bits count = 0
whole_log2 (suc w) bits count =
    let lower = whole_log2 w bits count in
    if leb (count * 2 ^ suc w) (2 ^ bits) then suc w else lower

abbrev pub is_current_epoch : Option ℕ → ℕ → Bool
is_current_epoch none epoch = false
is_current_epoch (some ec) epoch = ec == epoch

-- The epoch context is replaced if the epoch is another one.
unfoldable pub with_epoch : Farm → ℕ → Farm
unfolding set_epoch
with_epoch f epoch =
    if is_current_epoch f.current_ec epoch
    then f
    else record f { current_ec = some epoch; miners = map (λ m. set_epoch m epoch) f.miners }

-- The shuffle of a farm that shuffles for each job.
unfoldable pub shuffle_for_job : (ℕ → ℕ) → Farm → Farm
unfolding shuffle
shuffle_for_job random f =
    if f.settings.ergodicity == 2 && f.current_wp.ex_size_bytes == 0 then shuffle random f else f

-- The first start nonce, and the farm with the width of a segment.
unfoldable pub first_nonce : Farm → ℕ × Farm
unfolding whole_log2
first_nonce f =
    if ltb 0 f.current_wp.ex_size_bytes
    then (let bits : ℕ = 64 - f.current_wp.ex_size_bytes * 4 in
        (
          f.current_wp.start_nonce,
          record f { nonce_segment_width = whole_log2 bits bits (length f.miners) },
        ))
    else (f.nonce_scrambler, f)

-- `_startNonce + ((uint64_t)i << m_nonce_segment_with)`.
unfoldable pub segment_start : ℕ → ℕ → ℕ → ℕ
segment_start start i width = (start + i * 2 ^ width % 2 ^ 64) % 2 ^ 64

-- The work of the miner at an index.
abbrev pub work_at : WorkPackage → ℕ → ℕ → ℕ → WorkPackage
work_at wp start i width = record wp { start_nonce = segment_start start i width }

-- The loop over the miners from index `i` on.
unfoldable pub set_works : WorkPackage → ℕ → ℕ → ℕ → List Miner → List Miner
unfolding segment_start set_work
set_works wp start width i [] = []
set_works wp start width i (m ∷ ms) =
    set_work m (work_at wp start i width) ∷ set_works wp start width (i + 1) ms

-- `m_currentWp` after the loop: the work of the last miner, if there is one.
abbrev pub last_work : WorkPackage → ℕ → ℕ → ℕ → WorkPackage
last_work wp start width zero = wp
last_work wp start width (suc n) = work_at wp start n width

unfoldable pub distribute : ℕ × Farm → Farm
unfolding set_works
distribute (start, f) = record f {
  current_wp = last_work f.current_wp start f.nonce_segment_width (length f.miners);
  miners = set_works f.current_wp start f.nonce_segment_width 0 f.miners;
}

abbrev pub set_work_at_epoch : (ℕ → ℕ) → Farm → WorkPackage → Option ℕ → Farm
set_work_at_epoch random f wp none = f
set_work_at_epoch random f wp (some epoch) =
    distribute
      (first_nonce (shuffle_for_job random (record (with_epoch f epoch) { current_wp = wp })))

-- `Farm::setWork`.
unfoldable pub set_work_farm : (ℕ → ℕ) → Farm → WorkPackage → Farm
unfolding with_epoch shuffle_for_job first_nonce distribute
set_work_farm random f wp = set_work_at_epoch random f wp wp.epoch
