-- ===== src/Api/Receive/Requests.antt =====
-- libapicore/ApiServer.cpp: the replies to a transmission.
use firominer.Base.{ℕ, ◌+◌, ◌≡◌, true, Option, none, some, List, [], ◌∷◌}
use firominer.Base.{◌++◌, length, ◌==◌, if◌then◌else◌}
use firominer.Stratum.Lines.{newline, next_line}
use firominer.Api.{JsonCpp, Library}
use firominer.Api.Receive.{Receiver, HttpRequest}

abbrev pub if_any : List ℕ → ℕ
if_any [] = 0
if_any (x ∷ xs) = 1

module _ (trim : List ℕ → List ℕ) where
  -- A line that is not blank is a request.
  abbrev pub one_request : List ℕ → ℕ
  one_request [] = 0
  one_request (x ∷ xs) = if_any (trim (x ∷ xs))

  -- The requests of a text, after a part of a line.
  unfoldable pub requests : List ℕ → List ℕ → ℕ
  requests line [] = 0
  requests line (c ∷ cs) =
      let ended = one_request line + requests [] cs in
      let goes_on = requests (line ++ c ∷ []) cs in if c == newline then ended else goes_on

-- A connection that is open and has been sent a number of replies, or the end of the process.
abbrev pub Counted : ℕ → Option Receiver → Type 0
Counted n none = Unit {0}
Counted n (some c) = (length c.sent ≡ n) × (c.open_socket ≡ true)

module _ (j : JsonCpp) (lib : Library) (parse : List ℕ → Option j.Value) (trim : List ℕ → List ℕ)
    (http_match : List ℕ → Option HttpRequest) where
  -- What is left of a transmission of requests: unless the process ends, there is one more reply for
  -- each request, the text that is kept has no line, and the connection is open and reads on.
  abbrev pub Replied : List ℕ → Receiver → Option Receiver → Type 0
  Replied text c none = Unit {0}
  Replied text c (some c') =
      (length c'.sent ≡ length c.sent + requests trim [] text)
      × (next_line c'.message ≡ none)
      × (c'.open_socket ≡ true)
      × (c'.reading ≡ true)
