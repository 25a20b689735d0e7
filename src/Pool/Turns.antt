-- ===== src/Pool/Turns.antt =====
-- libpoolprotocols/PoolManager.cpp: connections that fail to connect take their turns.
use firominer.Pool.{Manager}
use firominer.Pool.Rounds.{failed_try}
use firominer.Base.{ℕ, zero, suc}

-- Tries that fail, one after another.
unfoldable pub failed_tries : ℕ → Manager → Manager
unfolding failed_try
failed_tries zero m = m
failed_tries (suc n) m = failed_tries n (failed_try m)
