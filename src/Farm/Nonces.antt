-- ===== src/Farm/Nonces.antt =====
-- libethcore/Farm.cpp: the segments of the nonce space that `setWork` deals out.
use native.Mathlib.Nat.{mul-le-mul_right, pow-suc, one-le-pow}
use firominer.Base.{
  ◌∙◌, ℕ, zero, suc, ◌+◌, ◌-◌, ◌*◌, ◌%◌, ◌^◌, ◌≤◌, ◌<◌, ◌≡◌, ◌≢◌, refl, ap, some, List,
}
use firominer.Base.{[], ◌∷◌, length, get_elem?, arith, length-map, ltb, if◌then◌else◌, ℕ_discrete}
use firominer.Base.{dec_lt}
use firominer.Miner.{Miner, WorkPackage, set_work, set_epoch}
use firominer.Farm.{Farm}
use firominer.Farm.Work.{whole_log2, segment_start, work_at, set_works, with_epoch, shuffle_for_job}
use firominer.Farm.Work.{first_nonce, distribute, set_work_farm}

-- The search finds a width that fits, and no larger one up to where it began.
whole_log2_fits :
    (w bits count : ℕ) → count ≤ 2 ^ bits → count * 2 ^ whole_log2 w bits count ≤ 2 ^ bits
unfolding whole_log2
whole_log2_fits zero bits count h = omega arith
whole_log2_fits (suc w) bits count h = ground (arith, whole_log2_fits w bits count)

whole_log2_largest :
    (w bits count v : ℕ) → v ≤ w → whole_log2 w bits count < v → 2 ^ bits < count * 2 ^ v
unfolding whole_log2
whole_log2_largest zero bits count v h k = absurd (omega arith)
whole_log2_largest (suc w) bits count v h k = elim (ℕ_discrete v (suc w)) [
  | yes e ↦ ground (arith, e)
  | no ne ↦ ground (arith, whole_log2_largest w bits count v (omega arith))
]

whole_log2-le : (w bits count : ℕ) → whole_log2 w bits count ≤ w
unfolding whole_log2
whole_log2-le zero bits count = omega arith
whole_log2-le (suc w) bits count = ground (arith, whole_log2-le w bits count)

lt_double : (count p : ℕ) → 0 < count → 1 ≤ p → p < count * (p * 2)
lt_double count p h k = omega (arith, mul-le-mul_right (p * 2) h)

whole_log2_next :
    (bits count : ℕ) → 0 < count → 2 ^ bits < count * 2 ^ suc (whole_log2 bits bits count)
whole_log2_next bits count h = elim (dec_lt (whole_log2 bits bits count) bits) [
  | yes p ↦ whole_log2_largest bits bits count (suc (whole_log2 bits bits count)) p (omega arith)
  | no p ↦
      let e : whole_log2 bits bits count ≡ bits = omega (arith, whole_log2-le bits bits count) in
      rw (e, pow-suc 2 bits) (lt_double count (2 ^ bits) h (one-le-pow bits 2 (omega arith)))
]

shifted_ne :
    (start x y a b : ℕ)
    → x + a < 2 ^ 64
    → y + b < 2 ^ 64
    → x + a ≢ y + b
    → ((start + x % 2 ^ 64) % 2 ^ 64 + a) % 2 ^ 64 ≢ ((start + y % 2 ^ 64) % 2 ^ 64 + b) % 2 ^ 64
shifted_ne start x y a b hx hy ne = omega arith

-- The segment of an index ends where that of the next begins, or before.
segment-le : (i j p : ℕ) → i < j → i * p + p ≤ j * p
segment-le i j p h = omega (arith, mul-le-mul_right p h)

-- Two segments of one width that both lie in the nonce space are disjoint, also where the space
-- wraps round.
pub segment_start-ne :
    (start width n i j a b : ℕ)
    → n * 2 ^ width ≤ 2 ^ 64
    → i < n
    → j < n
    → i ≢ j
    → a < 2 ^ width
    → b < 2 ^ width
    → (segment_start start i width + a) % 2 ^ 64 ≢ (segment_start start j width + b) % 2 ^ 64
unfolding segment_start
segment_start-ne start width n i j a b fits hi hj ne ha hb =
    shifted_ne start (i * 2 ^ width) (j * 2 ^ width) a b
      (omega (arith, segment-le i n (2 ^ width) hi)) (omega (arith, segment-le j n (2 ^ width) hj))
      (λ e. elim (dec_lt i j) [
        | yes h ↦ omega (arith, e, segment-le i j (2 ^ width) h)
        | no h ↦ omega (arith, e, segment-le j i (2 ^ width) (omega arith))
      ])

get_elem?-set_works :
    (wp : WorkPackage) (start width k i : ℕ) (ms : List Miner) (m : Miner)
    → get_elem? ms i ≡ some m
    → get_elem? (set_works wp start width k ms) i
      ≡ some (set_work m (work_at wp start (k + i) width))
unfolding set_works
get_elem?-set_works wp start width k i [] m e = cc
get_elem?-set_works wp start width k zero (x ∷ ms) m e = ground arith
get_elem?-set_works wp start width k (suc i) (x ∷ ms) m e =
    ground (arith, get_elem?-set_works wp start width (k + 1) i ms m e)

pub length-set_works :
    (wp : WorkPackage) (start width k : ℕ) (ms : List Miner)
    → length (set_works wp start width k ms) ≡ length ms
unfolding set_works
length-set_works wp start width k [] = refl
length-set_works wp start width k (x ∷ ms) = ap suc (length-set_works wp start width (k + 1) ms)

pub length-with_epoch :
    (f : Farm) (epoch : ℕ) → length (with_epoch f epoch).miners ≡ length f.miners
unfolding with_epoch
length-with_epoch f epoch = ground (arith, length-map (λ (m : Miner). set_epoch m epoch) f.miners)

-- The nonce from which the segments are counted: the pool's, where it assigns a part of the nonce
-- space, and else the farm's own.
abbrev pub base_nonce : WorkPackage → Farm → ℕ
base_nonce wp f = if ltb 0 wp.ex_size_bytes then wp.start_nonce else f.nonce_scrambler

-- The calls of `set_work_farm` from the shuffle on.
deal : (ℕ → ℕ) → Farm → Farm
deal random f = distribute (first_nonce (shuffle_for_job random f))

deal-get_elem? :
    (random : ℕ → ℕ) (f : Farm) (i : ℕ) (m : Miner)
    → get_elem? f.miners i ≡ some m
    → let f' = deal random f in
      get_elem? f'.miners i
      ≡ some
          (set_work m (work_at f.current_wp (base_nonce f.current_wp f') i f'.nonce_segment_width))
unfolding deal distribute first_nonce shuffle_for_job
deal-get_elem? random f i m e = ground (
  arith,
  get_elem?-set_works f.current_wp (random f.draws) f.nonce_segment_width 0 i f.miners m e,
  get_elem?-set_works f.current_wp f.nonce_scrambler f.nonce_segment_width 0 i f.miners m e,
  get_elem?-set_works f.current_wp f.current_wp.start_nonce
      (whole_log2 (64 - f.current_wp.ex_size_bytes * 4) (64 - f.current_wp.ex_size_bytes * 4)
        (length f.miners))
      0 i f.miners m e,
)

deal-length : (random : ℕ → ℕ) (f : Farm) → length (deal random f).miners ≡ length f.miners
unfolding deal distribute first_nonce shuffle_for_job
deal-length random f = ground (
  arith,
  length-set_works f.current_wp (random f.draws) f.nonce_segment_width 0 f.miners,
  length-set_works f.current_wp f.nonce_scrambler f.nonce_segment_width 0 f.miners,
  length-set_works f.current_wp f.current_wp.start_nonce
      (whole_log2 (64 - f.current_wp.ex_size_bytes * 4) (64 - f.current_wp.ex_size_bytes * 4)
        (length f.miners))
      0 f.miners,
)

deal-width :
    (random : ℕ → ℕ) (f : Farm)
    → 0 < f.current_wp.ex_size_bytes
    → let bits : ℕ = 64 - f.current_wp.ex_size_bytes * 4 in
      (deal random f).nonce_segment_width ≡ whole_log2 bits bits (length f.miners)
unfolding deal distribute first_nonce shuffle_for_job
deal-width random f h = ground arith

set_work_farm-deal :
    (random : ℕ → ℕ) (f : Farm) (wp : WorkPackage) (epoch : ℕ)
    → wp.epoch ≡ some epoch
    → set_work_farm random f wp ≡ deal random (record (with_epoch f epoch) { current_wp = wp })
unfolding set_work_farm deal
set_work_farm-deal random f wp epoch known = rw known refl

module _ (random : ℕ → ℕ) (f : Farm) (wp : WorkPackage) (epoch : ℕ)
    (known : wp.epoch ≡ some epoch) where
  -- Work with a known epoch goes to every miner: the one at index `i` is given the work with the
  -- start of segment `i`, counted from the pool's nonce where the pool assigns a part of the nonce
  -- space, and else from the farm's; and the farm keeps as many miners.
  pub set_work_farm-get_elem? :
      (i : ℕ) (m : Miner)
      → get_elem? (with_epoch f epoch).miners i ≡ some m
      → let f' = set_work_farm random f wp in
        (get_elem? f'.miners i
          ≡ some (set_work m (work_at wp (base_nonce wp f') i f'.nonce_segment_width)))
        × (length f'.miners ≡ length f.miners)
  set_work_farm-get_elem? i m e =
      let f1 = record (with_epoch f epoch) { current_wp = wp } in
      rw (set_work_farm-deal random f wp epoch known)
        (deal-get_elem? random f1 i m e, deal-length random f1 ∙ length-with_epoch f epoch)

  -- Where the pool assigns a part of the nonce space, the segments of all the miners fit into the
  -- part that is left, 16 ^ (16 - size) nonces, and would not if they were twice as wide. This is
  -- so if there is a miner, and not more of them than nonces.
  pub set_work_farm-fits :
      0 < wp.ex_size_bytes
      → 0 < length f.miners
      → length f.miners ≤ 2 ^ (64 - wp.ex_size_bytes * 4)
      → let width = (set_work_farm random f wp).nonce_segment_width in
        (length f.miners * 2 ^ width ≤ 2 ^ (64 - wp.ex_size_bytes * 4))
        × (2 ^ (64 - wp.ex_size_bytes * 4) < length f.miners * 2 ^ suc width)
  set_work_farm-fits pos some_miner room =
      let f1 = record (with_epoch f epoch) { current_wp = wp } in
      let bits : ℕ = 64 - wp.ex_size_bytes * 4 in
      rw
        (
          set_work_farm-deal random f wp epoch known,
          deal-width random f1 pos,
          length-with_epoch f epoch,
        )
        (
          whole_log2_fits bits bits (length f.miners) room,
          whole_log2_next bits (length f.miners) some_miner,
        )
