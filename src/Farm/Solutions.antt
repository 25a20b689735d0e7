-- ===== src/Farm/Solutions.antt =====
-- libethcore/Miner.h: `SolutionAccountType` and its counters.
use firominer.Base.{ℕ, ◌+◌, ◌%◌, ◌^◌}

pub data SolutionAccounting : Type 0 where
  is_accepted is_rejected is_wasted is_failed : SolutionAccounting

pub record SolutionAccount : Type 0 where
  pub accepted : ℕ
  pub rejected : ℕ
  pub wasted : ℕ
  pub failed : ℕ
  pub tstamp : ℕ

abbrev pub no_solutions : SolutionAccount
no_solutions = record { accepted = 0; rejected = 0; wasted = 0; failed = 0; tstamp = 0 }

-- `++` on an `unsigned`.
abbrev pub increment : ℕ → ℕ
increment n = (n + 1) % 2 ^ 32

unfoldable pub account : SolutionAccounting → ℕ → SolutionAccount → SolutionAccount
account is_accepted now a = record a { accepted = increment a.accepted; tstamp = now }
account is_rejected now a = record a { rejected = increment a.rejected; tstamp = now }
account is_wasted now a = record a { wasted = increment a.wasted; tstamp = now }
account is_failed now a = record a { failed = increment a.failed; tstamp = now }

-- The counter of one kind.
abbrev pub counter : SolutionAccounting → SolutionAccount → ℕ
counter is_accepted a = a.accepted
counter is_rejected a = a.rejected
counter is_wasted a = a.wasted
counter is_failed a = a.failed
