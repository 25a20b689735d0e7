-- ===== src/Miner/Epoch.antt =====
-- libethcore/Miner.cpp: `initEpoch`, where the loading of the DAG is sequential. The wait for the
-- turn is the caller's: `init_epoch` is the part after it.
use firominer.Base.{ℕ, zero, suc, ◌+◌, ◌%◌, ◌^◌, ◌<◌, ◌≡◌, refl, arith, ◌==◌, if◌then◌else◌}

-- The static members `s_dagLoadMode`, `s_dagLoadIndex` and `s_minersCount`.
pub record DagLoad : Type 0 where
  pub mode : ℕ
  pub load_index : ℕ
  pub miners_count : ℕ

abbrev dag_load_mode_sequential : ℕ
dag_load_mode_sequential = 1

unfoldable pub set_dag_load_info : ℕ → ℕ → DagLoad
set_dag_load_info mode device_count = record {
  mode = mode;
  load_index = 0;
  miners_count = device_count;
}

-- The static members after the miner of an index has run `initEpoch_internal`.
unfoldable pub advance : DagLoad → ℕ → DagLoad
advance d index =
    if d.mode == dag_load_mode_sequential
    then (let next : ℕ = (index + 1) % 2 ^ 32 in
        record d { load_index = if d.miners_count == next then 0 else next })
    else d

-- The miners from `index` on, each in its turn.
unfoldable pub advance_from : ℕ → ℕ → DagLoad → DagLoad
unfolding advance
advance_from zero index d = d
advance_from (suc left) index d = advance_from left (index + 1) (advance d index)

advance_from-sequential :
    (left index : ℕ) (d : DagLoad)
    → d.mode ≡ 1
    → d.load_index ≡ index
    → 0 < left
    → index + left ≡ d.miners_count
    → d.miners_count < 2 ^ 32
    → advance_from left index d ≡ record d { load_index = 0 }
unfolding advance_from
advance_from-sequential zero index d m e h n b = absurd (omega arith)
advance_from-sequential (suc zero) index d m e h n b = ground arith
advance_from-sequential (suc (suc left)) index d m e h n b = ground (
  arith,
  advance_from-sequential (suc left) (index + 1) (record d { load_index = index + 1 }) m refl
      (omega arith) (omega arith) b,
)

-- The turns of a sequential load come round: after miners 0, 1, ..., each in its turn, the next
-- load begins with miner 0 again.
advance_from-set_dag_load_info :
    (count : ℕ)
    → 0 < count
    → count < 2 ^ 32
    → advance_from count 0 (set_dag_load_info 1 count) ≡ set_dag_load_info 1 count
unfolding set_dag_load_info
advance_from-set_dag_load_info count h b =
    advance_from-sequential count 0 _ refl refl h (omega arith) b
