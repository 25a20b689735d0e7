-- ===== src/Stratum/Receive.antt =====
-- libpoolprotocols/stratum/EthStratumClient.cpp: `onRecvSocketDataCompleted`. The JSON parser and
-- `boost::trim` are parameters, and so is the clock: the minute and the time at each line.
pub mod Sessions
use firominer.Stratum.Response.{
  Message, Client, Outcome, on_stratum, post_disconnect, returns, throws,
}
use firominer.Stratum.Response.{aborts}
use firominer.Stratum.Response.Process.{process_response}
use firominer.Base.{
  ℕ, zero, suc, ◌+◌, Bool, true, false, ◌&&◌, not, Option, none, some, List, [], ◌∷◌,
}
use firominer.Base.{◌++◌, if◌then◌else◌}
use firominer.Miner.{WorkPackage}
use firominer.Stratum.{is_connected, Stratum}
use firominer.Stratum.Disconnect.{mark_unrecoverable}
use firominer.Stratum.Lines.{receive}

-- A `std::exception` is caught around each message.
abbrev pub settle : Outcome → Outcome
settle (returns c) = returns c
settle (throws c) = returns c
settle aborts = aborts

-- The lines that have been processed, and the client.
pub record Reading : Type 0 where
  pub line_count : ℕ
  pub outcome : Outcome

-- `m_message`, the client and the calls of `m_onWorkReceived`; `reading` is whether a read waits.
pub record Receiver : Type 0 where
  pub message : List ℕ
  pub client : Client
  pub dispatched : List WorkPackage
  pub reading : Bool

pub data Received : Type 0 where
  received : Receiver → Received
  process_ends : Received

module _ (trim : List ℕ → List ℕ) (parse : List ℕ → Option Message) (clock : ℕ → ℕ × ℕ) where
  -- Text that is not JSON is passed over.
  abbrev pub process_parsed : Option Message → ℕ → Outcome → Outcome
  unfolding process_response
  process_parsed none n o = o
  process_parsed (some m) n (returns c) = settle (process_response m (clock n).0 (clock n).1 c)
  process_parsed (some m) n (throws c) = throws c
  process_parsed (some m) n aborts = aborts

  abbrev pub parse_trimmed : List ℕ → Option Message
  parse_trimmed [] = none
  parse_trimmed (c ∷ cs) = parse (c ∷ cs)

  -- A line with something in it.
  unfoldable pub process_line : List ℕ → Reading → Reading
  unfolding process_response
  process_line line r = record {
    line_count = suc r.line_count;
    outcome = process_parsed (parse_trimmed (trim line)) r.line_count r.outcome;
  }

  -- The end of a transmission: the job that the client has then is dispatched if there is a new one.
  abbrev pub dispatch : List ℕ → List WorkPackage → Outcome → Received
  unfolding is_connected
  dispatch message dispatched (returns c) = received (record {
    message = message;
    client = c;
    dispatched = if c.new_job_processed then dispatched ++ c.current ∷ [] else dispatched;
    reading = is_connected c.stratum;
  })
  dispatch message dispatched (throws c) = process_ends
  dispatch message dispatched aborts = process_ends

  -- A transmission without an error.
  unfoldable pub on_recv : List ℕ → Receiver → Received
  unfolding receive process_line
  on_recv chunk r =
      let start = record (r.client) { new_job_processed = false } in
      let (message, read) =
        receive process_line chunk
          (r.message, record { line_count = 0; outcome = returns start }) in
      dispatch message r.dispatched read.outcome

-- A read that ends with an error: nothing is read on.
unfoldable pub on_recv_error : Receiver → Receiver
unfolding is_connected
on_recv_error r =
    let c = r.client in
    let warned = if c.stratum.authpending then on_stratum mark_unrecoverable c else c in
    record r {
      client = if is_connected c.stratum then post_disconnect warned else c;
      reading = false;
    }
