-- ===== src/Stratum/Lines.antt =====
-- libpoolprotocols/stratum/EthStratumClient.cpp: the loop of `onRecvSocketDataCompleted` over the
-- lines that have arrived. Text is the list of its character codes; what is done with a line is a
-- parameter.
pub mod Frames
use firominer.Base.{ℕ, zero, suc, ◌+◌, ◌≤◌, ◌<◌, ◌≡◌, refl, ap, sym, ◌∙◌, arith, Option, none, some}
use firominer.Base.{
  List, [], ◌∷◌, ◌++◌, length, drop, length-append, ◌==◌, if◌then◌else◌, Bool, true,
}
use firominer.Base.{false, Bool-cases, inl, inr}
use mathlib.Core.List.{append_assoc, append-nil}

abbrev pub newline : ℕ
newline = 10

-- `m_message.find("\n")`: the line before it, and the text after it.
abbrev pub before : ℕ → Option (List ℕ × List ℕ) → Option (List ℕ × List ℕ)
before c none = none
before c (some (line, rest)) = some (c ∷ line, rest)

unfoldable pub next_line : List ℕ → Option (List ℕ × List ℕ)
next_line [] = none
next_line (c ∷ cs) =
    let later = before c (next_line cs) in if c == newline then some ([], cs) else later

module _ {S : Type 0} (handle : List ℕ → S → S) where
  -- An empty line is passed over.
  abbrev pub handle_line : List ℕ → S → S
  handle_line [] s = s
  handle_line (c ∷ cs) s = handle (c ∷ cs) s

  -- The loop, with fuel: the text that is left, and the state.
  unfoldable pub receive_lines : ℕ → List ℕ → S → List ℕ × S
  unfolding next_line
  receive_lines zero message s = (message, s)
  receive_lines (suc fuel) message s = elim (next_line message) [
    | none ↦ (message, s)
    | some (line, rest) ↦ receive_lines fuel rest (handle_line line s)
  ]

  -- A transmission: it is appended to `m_message`, and each line has at least one character.
  unfoldable pub receive : List ℕ → List ℕ × S → List ℕ × S
  unfolding receive_lines
  receive chunk (message, s) = let text = message ++ chunk in receive_lines (length text) text s

  unfoldable pub receive_all : List (List ℕ) → List ℕ × S → List ℕ × S
  unfolding receive
  receive_all [] r = r
  receive_all (chunk ∷ chunks) r = receive_all chunks (receive chunk r)

  -- The lines of a text one character at a time: the line so far, and the state.
  unfoldable pub feed : List ℕ → List ℕ → S → List ℕ × S
  feed line [] s = (line, s)
  feed line (c ∷ cs) s =
      let ended = feed [] cs (handle_line line s) in
      let goes_on = feed (line ++ c ∷ []) cs s in if c == newline then ended else goes_on
