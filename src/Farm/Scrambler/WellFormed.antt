-- ===== src/Farm/Scrambler/WellFormed.antt =====
-- libethcore/Farm.h: the calls of the API keep a farm well formed.
use firominer.Base.{ℕ, zero, suc, ◌≡◌, refl, ◌∙◌, Option, none, some, List, [], ◌∷◌, set, get_elem?}
use firominer.Base.{length-set, arith, Bool-cases, inl, inr, ◌==◌}
use firominer.Miner.{Miner}
use firominer.Farm.{Farm}
use firominer.Farm.Mining.{Indexed, IsWellFormed}
use firominer.Farm.Scrambler.{set_nonce_segment_width, on_miner, with_miner}

Indexed-set :
    (g : Miner → Miner) (keeps : (m : Miner) → (g m).index ≡ m.index) (k i : ℕ) (ms : List Miner)
    (m : Miner)
    → get_elem? ms i ≡ some m
    → Indexed k ms
    → Indexed k (set ms i (g m))
Indexed-set g keeps k i [] m e h = tt
Indexed-set g keeps k zero (x ∷ ms) m e h = (keeps m ∙ ground (arith, h.0), h.1)
Indexed-set g keeps k (suc i) (x ∷ ms) m e h = (h.0, Indexed-set g keeps (suc k) i ms m e h.1)

set-idle : (ms : List Miner) (i : ℕ) (m : Miner) → ms ≡ [] → set ms i m ≡ []
set-idle ms i m e = rw e refl

pub on_miner-IsWellFormed :
    (g : Miner → Miner) (keeps : (m : Miner) → (g m).index ≡ m.index) (f : Farm) (idx : ℕ)
    → IsWellFormed f
    → IsWellFormed (on_miner f idx g)
unfolding on_miner
on_miner-IsWellFormed g keeps f idx w = by_miner (get_elem? f.miners idx) refl
  where
    by_miner : (o : Option Miner) → get_elem? f.miners idx ≡ o → IsWellFormed (with_miner f idx g o)
    by_miner none e = w
    by_miner (some m) e = record {
      indexed = Indexed-set g keeps 0 idx f.miners m e w.indexed;
      covered = omega (arith, length-set f.miners idx (g m), w.covered);
      idle = λ h. set-idle f.miners idx (g m) (w.idle h);
    }

pub set_nonce_segment_width-IsWellFormed :
    (f : Farm) (n : ℕ) → IsWellFormed f → IsWellFormed (set_nonce_segment_width f n)
unfolding set_nonce_segment_width
set_nonce_segment_width-IsWellFormed f n w = elim (Bool-cases (f.current_wp.ex_size_bytes == 0)) [
  | inl e ↦ rw e (record { indexed = w.indexed; covered = w.covered; idle = w.idle })
  | inr e ↦ rw e w
]
