-- ===== src/Cl/Launches.antt =====
-- libethash-cl/CLMiner.cpp: the nonces that the kernels of a device go through.
use firominer.Base.{ℕ, ◌+◌, ◌%◌, ◌^◌, ◌≡◌, ◌≢◌}
use firominer.Base.{List, [], ◌∷◌}
use firominer.Miner.{WorkPackage}
use firominer.Cl.{Launch, ClMiner}

module _ (global : ℕ) where
  -- A launch goes on where the one before it ended, if it has the same header, and else begins at
  -- the start nonce of its work.
  abbrev pub Follows : Launch → List Launch → Type 0
  Follows l [] = l.from ≡ l.work.start_nonce
  Follows l (p ∷ ps) =
      (l.work.header ≡ p.work.header → l.from ≡ (p.from + global) % 2 ^ 64)
      × (l.work.header ≢ p.work.header → l.from ≡ l.work.start_nonce)

  abbrev pub Chained : List Launch → Type 0
  Chained [] = Unit {0}
  Chained (l ∷ ls) = Follows l ls × Chained ls

  -- The current work is that of the last launch, from its first nonce on, and the next nonces follow.
  abbrev pub Current : WorkPackage → ℕ → List Launch → Type 0
  Current w next [] = w.header ≡ 0
  Current w next (l ∷ ls) =
      (w ≡ record l.work { start_nonce = l.from }) × (next ≡ (l.from + global) % 2 ^ 64)

  pub record InOrder (c : ClMiner) : Type 0 where
    pub chained : Chained c.launches
    pub current : Current c.current c.start_nonce c.launches
