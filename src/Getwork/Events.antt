-- ===== src/Getwork/Events.antt =====
-- libpoolprotocols/getwork/EthGetworkClient.cpp: the client through any events.
use firominer.Getwork.Connect.{connect_node, handle_resolve, handle_connect, handle_write}
use firominer.Getwork.Connect.{getwork_timer_elapsed, submit_to_node, Completion}
use firominer.Getwork.{Continuation, goes_on, ends_process, Getwork}
use firominer.Getwork.Response.{NodeResponse, process_node_response}
use firominer.Base.{ℕ, false, List, [], ◌∷◌}
use firominer.Base.{Option, ◌≡◌, String}
use firominer.Getwork.Read.{handle_read}

-- What the node and the miners do to the client. A spurious failure of a `compare_exchange_weak` is
-- left out.
pub data NodeEvent : Type 0 where
  connect_event : ℕ → ℕ → NodeEvent
  resolve_event : ℕ → Option (List ℕ) → NodeEvent
  connected_event : Completion → ℕ → ℕ → NodeEvent
  written_event : Completion → ℕ → NodeEvent
  read_event : Completion → ℕ → ℕ → List ℕ → NodeEvent
  timer_event : ℕ → ℕ → NodeEvent
  solution_event : ℕ → ℕ → List ℕ → List ℕ → List ℕ → NodeEvent

-- The requests of a client are the same.
abbrev SameQueue : Getwork → Getwork → Type 0
SameQueue g g' = (g'.tx_pending ≡ g.tx_pending) × (g'.tx_queue ≡ g.tx_queue)

module _ (seed_of_epoch : ℕ → ℕ) (target_of_bits : ℕ → ℕ) (hex : ℕ → String)
    (farm_recheck_period worktimeout : ℕ) (parse : List ℕ → Option NodeResponse)
    (replace_all : List ℕ → List ℕ) (stoul : List ℕ → Option ℕ) where
  process : ℕ → NodeResponse → Getwork → Continuation
  process now m g =
      process_node_response seed_of_epoch target_of_bits hex farm_recheck_period m now g

  -- The handler of an event; the reading of a response has the time at which it is processed.
  unfoldable pub node_event : NodeEvent → Getwork → Continuation
  unfolding process
  node_event (connect_event minute address) g = connect_node false minute address g
  node_event (resolve_event minute found) g = handle_resolve minute found g
  node_event (connected_event how minute now) g = handle_connect how minute now g
  node_event (written_event how minute) g = handle_write how minute g
  node_event (read_event how minute now rx) g =
      handle_read parse replace_all stoul (process now) how minute rx g
  node_event (timer_event minute now) g = getwork_timer_elapsed worktimeout minute now g
  node_event (solution_event minute midx header mix nonce) g =
      submit_to_node false minute midx header mix nonce g

  abbrev pub and_then : Continuation → (Getwork → Continuation) → Continuation
  and_then ends_process k = ends_process
  and_then (goes_on g) k = k g

  unfoldable pub node_events : List NodeEvent → Getwork → Continuation
  unfolding node_event
  node_events [] g = goes_on g
  node_events (e ∷ es) g = and_then (node_event e g) (node_events es)
