-- ===== src/Getwork.antt =====
-- libpoolprotocols/getwork/EthGetworkClient.h and EthGetworkClient.cpp: the client of a node. Each
-- request has a connection of its own. What the socket or the resolver is about is `operation`; its
-- end is the call of a handler. Times are in milliseconds, that of a session in minutes. Text is
-- the list of its character codes.
pub mod Connect
pub mod Response
pub mod Read
pub mod Attempts
pub mod Answers
pub mod Queue
pub mod ReadQueue
pub mod Fuel
pub mod Events
use firominer.Base.{
  ℕ, ◌+◌, Bool, true, false, List, [], ◌∷◌, ◌++◌, Option, none, some, if◌then◌else◌,
}
use firominer.Miner.{WorkPackage}

-- The requests that are sent, all of them nonempty text: `m_jsonGetWork` and solutions, with the
-- header, the mix hash and the nonce.
pub data GetworkRequest : Type 0 where
  get_block_template : GetworkRequest
  submit_block : ℕ → List ℕ → List ℕ → List ℕ → GetworkRequest

-- The id of a request; a request that has not been made, a null value, has 0.
abbrev pub request_id : Option GetworkRequest → ℕ
request_id none = 0
request_id (some get_block_template) = 1
request_id (some (submit_block id header mix nonce)) = id

-- An operation of the socket or of the resolver that is under way.
pub data Operation : Type 0 where
  no_operation resolves_host reads_response : Operation
  connects_to : ℕ → Operation
  writes_request : GetworkRequest → Operation

pub data GetworkCall : Type 0 where
  called_connected called_disconnected : GetworkCall
  called_work_received : WorkPackage → GetworkCall
  called_accepted called_rejected : ℕ → ℕ → GetworkCall

pub record Getwork : Type 0 where
  pub connecting : Bool
  pub connected : Bool
  pub tx_pending : Bool
  pub tx_queue : List GetworkRequest
  pub endpoints : List ℕ
  -- The minute `m_session` started at, where there is one.
  pub session : Option ℕ
  -- Of `m_conn`: the minutes of its sessions, and whether its host is a name.
  pub total_duration : ℕ
  pub needs_resolver : Bool
  pub pending_request : Option GetworkRequest
  pub pending_tstamp : ℕ
  pub current : WorkPackage
  pub current_tstamp : ℕ
  pub solution_submitted_max_id : ℕ
  -- The delay that `m_getwork_timer` has been set to, where it runs.
  pub timer : Option ℕ
  pub operation : Operation
  pub calls : List GetworkCall

-- How a call ends: the client goes on, or the process ends, at a null pointer, or at an exception,
-- which nothing catches between a handler and the thread of the I/O service.
pub data Continuation : Type 0 where
  goes_on : Getwork → Continuation
  ends_process : Continuation

abbrev pub add_call : GetworkCall → Getwork → Getwork
add_call x g = record g { calls = g.calls ++ x ∷ [] }
