-- ===== src/Stratum/Send/Order.antt =====
-- libpoolprotocols/stratum/EthStratumClient.cpp: the lines to the pool go out whole and in order.
use firominer.Stratum.Send.{Sender, send_line, lines_of}
use firominer.Base.{ℕ, Bool, true, false, Option, none, some, List, [], ◌∷◌, ◌++◌, ◌≡◌, refl, ◌⊎◌}
use firominer.Stratum.{is_connected}

abbrev is_writing : Option (List (List ℕ)) → Bool
is_writing none = false
is_writing (some ls) = true

-- On a connection: the flag says whether a write is under way, and lines wait only behind one.
record Busy (s : Sender) : Type 0 where
  pub up : is_connected s.stratum ≡ true
  pub flagged : s.stratum.tx_pending ≡ is_writing s.writing
  pub behind : (s.tx_queue ≡ []) ⊎ (is_writing s.writing ≡ true)

-- All the lines that the sender has or has had.
abbrev pub all_lines : Sender → List (List ℕ)
all_lines s = s.written ++ (lines_of s.writing ++ s.tx_queue)

-- What a line does to the queue.
Sends : List ℕ → Sender → Sender → Type 0
Sends line s s' = Busy s' × (all_lines s' ≡ all_lines s ++ line ∷ [])

-- What the end of a write does.
Completes : Sender → Sender → Type 0
Completes s s' = Busy s' × (all_lines s' ≡ all_lines s)

-- A `compare_exchange_weak` that fails without a reason leaves the line of an idle connection in
-- the queue, with no write under way and the flag unset: nothing writes it until another is sent.
pub send_line-spurious :
    (line : List ℕ) (s : Sender)
    → s.stratum.tx_pending ≡ false
    → s.writing ≡ none
    → let s' = send_line true line s in
      (s'.tx_queue ≡ s.tx_queue ++ line ∷ [])
      × (s'.writing ≡ none)
      × (s'.stratum.tx_pending ≡ false)
      × (s'.written ≡ s.written)
unfolding send_line
send_line-spurious line s idle nothing = rw idle (refl, nothing, refl, refl)
