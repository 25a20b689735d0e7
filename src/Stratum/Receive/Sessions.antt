-- ===== src/Stratum/Receive/Sessions.antt =====
-- libpoolprotocols/stratum/EthStratumClient.cpp: what holds after a transmission, whatever its text.
use firominer.Stratum.Receive.{process_ends}
use firominer.Stratum.Receive.{Received, received}
use firominer.Stratum.Response.{Message, Client, is_some}
use firominer.Stratum.Response.Phases.{Phase, phase, offline, online}
use firominer.Miner.{WorkPackage}
use firominer.Base.{ℕ, Bool, true, false, List, [], ◌∷◌, ◌++◌, Option}
use firominer.Base.{◌≡◌, ◌⊎◌}

-- A session of a mode but EthereumStratum/2.0.0 is subscribed.
abbrev pub WellPhased : Phase → Type 0
WellPhased offline = Unit
WellPhased (online mode subscribed authorized) = (mode ≡ 3) ⊎ (subscribed ≡ true)

abbrev is_online : Phase → Bool
is_online offline = false
is_online (online mode subscribed authorized) = true

-- A client between two messages: a job waits only in a session.
abbrev Sound : Client → Type 0
Sound c =
    WellPhased (phase c) × ((c.new_job_processed ≡ false) ⊎ (is_some c.stratum.session ≡ true))

module _ (trim : List ℕ → List ℕ) (parse : List ℕ → Option Message) (clock : ℕ → ℕ × ℕ) where
  abbrev pub DispatchSound : List WorkPackage → Received → Type 0
  DispatchSound before process_ends = Unit
  DispatchSound before (received r) =
      WellPhased (phase r.client)
      × ((r.dispatched ≡ before)
          ⊎ ((r.dispatched ≡ before ++ r.client.current ∷ [])
              × (is_some r.client.stratum.session ≡ true)))
