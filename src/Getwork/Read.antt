-- ===== src/Getwork/Read.antt =====
-- libpoolprotocols/getwork/EthGetworkClient.cpp: `handle_read`, and the HTTP response in it. The
-- JSON parser, `boost::replace_all` of line feeds by nothing, and `stoul` of a status are parameters.
use firominer.Base.{
  ℕ, zero, suc, Bool, true, false, ◌&&◌, not, List, [], ◌∷◌, Option, none, some, ◌==◌,
}
use firominer.Base.{if◌then◌else◌, length}
use firominer.Getwork.{Getwork, GetworkRequest, Continuation, goes_on, ends_process, no_operation}
use firominer.Getwork.Connect.{
  disconnect_node, begin_connect, Completion, succeeded, failed, cancelled,
}

-- `find` of a line delimiter: the text before it, and after it.
abbrev pub before_char : ℕ → Option (List ℕ × List ℕ) → Option (List ℕ × List ℕ)
before_char c none = none
before_char c (some (line, rest)) = some (c ∷ line, rest)

unfoldable pub next_crlf : List ℕ → Option (List ℕ × List ℕ)
next_crlf [] = none
next_crlf (c ∷ []) = none
next_crlf (c ∷ d ∷ cs) =
    let later = before_char c (next_crlf (d ∷ cs)) in
    if c == 13 && d == 10 then some ([], cs) else later

abbrev pub take : ℕ → List ℕ → List ℕ
take zero cs = []
take (suc n) [] = []
take (suc n) (c ∷ cs) = c ∷ take n cs

-- The text after the first space.
unfoldable pub after_space : List ℕ → Option (List ℕ)
after_space [] = none
after_space (c ∷ cs) = let later = after_space cs in if c == b' ' then some cs else later

-- The text starts with "HTTP/1.".
abbrev pub starts_with : List ℕ → List ℕ → Bool
starts_with [] cs = true
starts_with (x ∷ xs) [] = false
starts_with (x ∷ xs) (c ∷ cs) = x == c && starts_with xs cs

abbrev pub http_1 : List ℕ
http_1 = b'H' ∷ b'T' ∷ b'T' ∷ b'P' ∷ b'/' ∷ b'1' ∷ b'.' ∷ []

-- The loop over the lines ends with whether there was a body, with the status and the client; or at
-- a status line that is not one; or it ends the process.
pub data HttpEnd : Type 0 where
  all_read : Bool → ℕ → Getwork → HttpEnd
  invalid_status : Getwork → HttpEnd
  http_ends_process : HttpEnd

-- The state of the loop: the number of the line, and the variables of the loop.
pub record HttpState : Type 0 where
  pub linenum : ℕ
  pub is_header : Bool
  pub has_payload : Bool
  pub status : ℕ

-- The end of a request: the next one of the queue, or none.
unfoldable pub next_in_queue : ℕ → List GetworkRequest → Getwork → Continuation
unfolding begin_connect
next_in_queue minute [] g = goes_on (record g { tx_pending = false })
next_in_queue minute (x ∷ xs) g = begin_connect minute g

module _ {R : Type 0} (parse : List ℕ → Option R) (replace_all : List ℕ → List ℕ)
    (stoul : List ℕ → Option ℕ) (process : R → Getwork → Continuation) where
  -- The status of a status line; `none` where it is not one.
  unfoldable pub status_text : List ℕ → Option (List ℕ)
  unfolding after_space
  status_text line =
      if starts_with http_1 line
      then (elim (after_space line) [ none ↦ none | some rest ↦ some (take 3 rest) ])
      else none

  -- A body that is not JSON is passed over.
  abbrev pub process_body : Option R → Getwork → Continuation
  process_body none g = goes_on g
  process_body (some r) g = process r g

  abbrev pub with_status : Option (List ℕ) → Getwork → (ℕ → HttpEnd) → HttpEnd
  with_status none g k = invalid_status g
  with_status (some text) g k = elim (stoul text) [ none ↦ http_ends_process | some n ↦ k n ]

  abbrev pub with_body : Continuation → (Getwork → HttpEnd) → HttpEnd
  with_body ends_process k = http_ends_process
  with_body (goes_on g) k = k g

  -- An empty line: the body begins; a body without a delimiter is the last line.
  abbrev pub begin_body :
      (HttpState → List ℕ → Getwork → HttpEnd)
      → HttpState
      → List ℕ
      → Getwork
      → Option (List ℕ × List ℕ)
      → HttpEnd
  begin_body loop h rest g (some more) = loop (record h { is_header = false }) rest g
  begin_body loop h rest g none =
      with_body (process_body (parse (replace_all rest)) g) (λ g'. all_read true h.status g')

  -- Another line: of the header, the first has the status; of the body, it is processed.
  unfoldable pub read_line :
      (HttpState → List ℕ → Getwork → HttpEnd) → HttpState → List ℕ → List ℕ → Getwork → HttpEnd
  unfolding status_text
  read_line loop h line rest g =
      if h.is_header
      then if h.linenum == 1
        then with_status (status_text line) g (λ n. loop (record h { status = n }) rest g)
        else loop h rest g
      else with_body (process_body (parse line) g)
          (λ g'. loop (record h { has_payload = true }) rest g')

  -- The body of the loop, on the line that is found.
  unfoldable pub on_line :
      (HttpState → List ℕ → Getwork → HttpEnd)
      → HttpState
      → Getwork
      → Option (List ℕ × List ℕ)
      → HttpEnd
  unfolding next_crlf read_line
  on_line loop h g none = all_read h.has_payload h.status g
  on_line loop h g (some ([], rest)) =
      begin_body loop (record h { linenum = suc h.linenum }) rest g (next_crlf rest)
  on_line loop h g (some (c ∷ line, rest)) =
      read_line loop (record h { linenum = suc h.linenum }) (c ∷ line) rest g

  -- The loop, with fuel.
  unfoldable pub http_lines : ℕ → HttpState → List ℕ → Getwork → HttpEnd
  unfolding next_crlf on_line
  http_lines zero h rx g = all_read h.has_payload h.status g
  http_lines (suc fuel) h rx g = on_line (http_lines fuel) h g (next_crlf rx)

  -- What follows the loop.
  unfoldable pub after_http : ℕ → HttpEnd → Continuation
  unfolding disconnect_node next_in_queue
  after_http minute http_ends_process = ends_process
  after_http minute (invalid_status g) = disconnect_node minute g
  after_http minute (all_read has_payload status g) =
      if not has_payload && not (status == 200)
      then disconnect_node minute g
      else next_in_queue minute g.tx_queue g

  -- `handle_read`, with the text that was read; the end of the stream after some text is a success.
  unfoldable pub handle_read : Completion → ℕ → List ℕ → Getwork → Continuation
  unfolding http_lines after_http
  handle_read succeeded minute [] g = disconnect_node minute (record g { operation = no_operation })
  handle_read succeeded minute (c ∷ rx) g =
      let start : HttpState = record {
        linenum = 0;
        is_header = true;
        has_payload = false;
        status = 0;
      } in
      after_http minute
        (http_lines (length (c ∷ rx)) start (c ∷ rx) (record g { operation = no_operation }))
  handle_read failed minute rx g = disconnect_node minute (record g { operation = no_operation })
  handle_read cancelled minute rx g = goes_on (record g { operation = no_operation })
