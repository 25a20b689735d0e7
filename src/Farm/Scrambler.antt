-- ===== src/Farm/Scrambler.antt =====
-- libethcore/Farm.h and Farm.cpp: what the API asks of a farm, beside its statistics.
pub mod WellFormed
use firominer.Base.{ℕ, true, Option, none, some, List, length, get_elem?, set, ◌==◌, if◌then◌else◌}
use firominer.Miner.{Miner}
use firominer.Farm.{Farm}
use firominer.Hex.{to_hex}

unfoldable pub set_nonce_scrambler : Farm → ℕ → Farm
set_nonce_scrambler f n = record f { nonce_scrambler = n }

-- The pool's share of the nonce space fixes the width while the work has one.
unfoldable pub set_nonce_segment_width : Farm → ℕ → Farm
set_nonce_segment_width f n =
    if f.current_wp.ex_size_bytes == 0 then record f { nonce_segment_width = n } else f

-- `getMiner`; `none` is the null pointer.
unfoldable pub get_miner : Farm → ℕ → Option Miner
get_miner f idx = get_elem? f.miners idx

-- A call on the miner at an index, through the pointer that `getMiner` returns.
abbrev pub with_miner : Farm → ℕ → (Miner → Miner) → Option Miner → Farm
with_miner f idx g none = f
with_miner f idx g (some m) = record f { miners = set f.miners idx (g m) }

unfoldable pub on_miner : Farm → ℕ → (Miner → Miner) → Farm
unfolding get_miner
on_miner f idx g = with_miner f idx g (get_miner f idx)

-- `get_nonce_scrambler_json`.
pub record ScramblerInfo : Type 0 where
  pub start_nonce : List ℕ
  pub device_width : ℕ
  pub device_count : ℕ

unfoldable pub get_nonce_scrambler_info : Farm → ScramblerInfo
unfolding to_hex
get_nonce_scrambler_info f = record {
  start_nonce = to_hex f.nonce_scrambler true 16;
  device_width = f.nonce_segment_width;
  device_count = length f.miners;
}
