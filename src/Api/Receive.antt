-- ===== src/Api/Receive.antt =====
-- libapicore/ApiServer.cpp: `onRecvSocketDataCompleted` of a connection, and the replies. Text is the
-- list of its character codes. The JSON parser, `boost::trim` and the match of the HTTP pattern are
-- parameters.
pub mod Requests
use firominer.Base.{
  ℕ, zero, suc, ◌+◌, ◌%◌, ◌^◌, Bool, true, false, not, ◌&&◌, ◌||◌, Option, none, some,
}
use firominer.Base.{List, [], ◌∷◌, ◌++◌, String, str_eq, length, ltb, if◌then◌else◌}
use firominer.Stratum.Lines.{receive_lines}
use firominer.Api.{JsonCpp, Library, Api, Response, Outcome, returns, throws, ends_process, Detail}
use firominer.Api.{DeviceDetail}
use firominer.Api.Details.{get_miner_stat_detail, DetailEnd, has_detail, detail_throws}
use firominer.Api.Details.{detail_ends_process}
use firominer.Api.Process.{process_request}

-- The groups of the pattern: the method, the path and the version.
pub record HttpRequest : Type 0 where
  pub method : String
  pub path : String
  pub version : String

-- What is sent: a response; the object of an exception or of text that is not JSON, whose errors have
-- an `errorcode`; or a page of HTTP.
pub data Reply : Type 0 where
  answers : Response → Reply
  server_error parse_error : Reply
  not_allowed not_found : HttpRequest → Reply
  page : HttpRequest → Detail → ℕ → Reply
  internal_error : HttpRequest → Reply

-- `m_message`, whether the socket is open and a read is pending, and what has been handed to a
-- write: in order, with whether the connection ends after it. `disconnects` counts the calls of
-- `disconnect`.
pub record Receiver : Type 0 where
  pub message : List ℕ
  pub open_socket : Bool
  pub reading : Bool
  pub sent : List (Reply × Bool)
  pub disconnects : ℕ
  pub api : Api

-- `sendSocketData`.
unfoldable pub send_socket_data : Reply → Bool → Receiver → Receiver
send_socket_data x ends c =
    if c.open_socket then record c { sent = c.sent ++ (x, ends) ∷ [] } else c

-- `disconnect`.
unfoldable pub disconnect : Receiver → Receiver
disconnect c = record c { open_socket = false; reading = false; disconnects = suc c.disconnects }

-- `onSendSocketDataCompleted`.
unfoldable pub on_send_completed : Bool → Bool → Receiver → Receiver
unfolding disconnect
on_send_completed failed ends c = if failed || ends then disconnect c else c

-- The sum of the accepted solutions, on an `unsigned`.
unfoldable pub total_solutions : ℕ → List DeviceDetail → ℕ
total_solutions total [] = total
total_solutions total (d ∷ ds) = total_solutions ((total + d.shares.accepted) % 2 ^ 32) ds

module _ (j : JsonCpp) (lib : Library) (parse : List ℕ → Option j.Value) (trim : List ℕ → List ℕ)
    (http_match : List ℕ → Option HttpRequest) where
  -- The reply to what `processRequest` ends with; `none` is the end of the process.
  abbrev pub reply : Receiver → Outcome → Option Receiver
  reply c (returns s r) = some (send_socket_data (answers r) false (record c { api = s }))
  reply c (throws s) = some (send_socket_data server_error false (record c { api = s }))
  reply c ends_process = none

  abbrev pub process_parsed : Option j.Value → Receiver → Option Receiver
  process_parsed none c = some (send_socket_data parse_error false c)
  process_parsed (some request) c = reply c (process_request j lib request c.api)

  abbrev pub process_trimmed : List ℕ → Receiver → Option Receiver
  process_trimmed [] c = some c
  process_trimmed (x ∷ xs) c = process_parsed (parse (x ∷ xs)) c

  -- A line that is not empty.
  unfoldable pub process_line : List ℕ → Option Receiver → Option Receiver
  unfolding process_request send_socket_data
  process_line line none = none
  process_line line (some c) = process_trimmed (trim line) c

  -- The page of `getHttpMinerStatDetail`, or its exception.
  abbrev pub send_page : HttpRequest → Receiver → DetailEnd → Option Receiver
  send_page h c (has_detail d) =
      some (send_socket_data (page h d (total_solutions 0 d.devices)) true c)
  send_page h c detail_throws = some (send_socket_data (internal_error h) true c)
  send_page h c detail_ends_process = none

  abbrev pub clear_message : Option Receiver → Option Receiver
  clear_message none = none
  clear_message (some c) = some (record c { message = [] })

  unfoldable pub on_http : HttpRequest → Receiver → Option Receiver
  unfolding send_socket_data total_solutions get_miner_stat_detail
  on_http h c = clear_message (
      if not (str_eq h.method "GET")
      then some (send_socket_data (not_allowed h) true c)
      else if not (str_eq h.path "/") && not (str_eq h.path "/getstat1")
      then some (send_socket_data (not_found h) true c)
      else send_page h c (get_miner_stat_detail lib.now c.api.manager))

  -- After the lines the rest is kept, and reading goes on if the socket is open.
  abbrev pub after_lines : List ℕ × Option Receiver → Option Receiver
  after_lines (rest, none) = none
  after_lines (rest, some c) = some (record c { message = rest; reading = c.open_socket })

  abbrev pub on_message : Option HttpRequest → List ℕ → Receiver → Option Receiver
  on_message (some h) text c = on_http h c
  on_message none text c = after_lines (receive_lines process_line (length text) text (some c))

  unfoldable pub on_text : List ℕ → Receiver → Option Receiver
  unfolding on_http receive_lines process_line
  on_text text c =
      if ltb (length text) 4
      then some (record c { message = text; reading = false })
      else on_message (http_match text) text (record c { message = text; reading = false })

  -- `onRecvSocketDataCompleted`: with an error or with no bytes it disconnects.
  unfoldable pub on_recv : Bool → List ℕ → Receiver → Option Receiver
  unfolding on_text disconnect
  on_recv failed [] c = some (disconnect c)
  on_recv true (x ∷ chunk) c = some (disconnect c)
  on_recv false (x ∷ chunk) c = on_text (c.message ++ x ∷ chunk) c
