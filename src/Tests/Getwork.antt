-- ===== src/Tests/Getwork.antt =====
-- The client of a node, the simulation and the URI of a connection at concrete inputs.
use firominer.Uri.Decode.{url_decode, url_decode-url_encode}
use firominer.Getwork.Answers.{submit_to_node-process_node_response}
use firominer.Getwork.{Getwork, Continuation, submit_block, no_operation}
use firominer.Getwork.{called_accepted, goes_on}
use firominer.Getwork.Connect.{handle_connect, submit_to_node, succeeded}
use firominer.Getwork.Response.{NodeResponse, process_node_response}
use firominer.Getwork.Read.{http_1, HttpState}
use firominer.Getwork.Events.{NodeEvent, connect_event, connected_event, written_event, read_event}
use firominer.Getwork.Events.{solution_event}
use firominer.Simulate.{Simulate}
use firominer.Base.{
  ℕ, ◌+◌, ◌*◌, ◌<◌, ◌≡◌, refl, true, false, List, [], ◌∷◌, ◌++◌, Option, none, some,
}
use firominer.Base.{String, arith, ◌/◌, ◌%◌}
use firominer.Miner.{no_work}
use firominer.Worker.{new_worker}
use firominer.Hex.{from_hex_char, hex_char}

abbrev node_client : Option ℕ → List ℕ → Getwork
node_client session endpoints = record {
  connecting = false;
  connected = false;
  tx_pending = false;
  tx_queue = [];
  endpoints = endpoints;
  session = session;
  total_duration = 0;
  needs_resolver = false;
  pending_request = none;
  pending_tstamp = 0;
  current = no_work;
  current_tstamp = 0;
  solution_submitted_max_id = 0;
  timer = none;
  operation = no_operation;
  calls = [];
}

abbrev answer : NodeResponse
answer = record {
  has_id = true;
  error_is_empty = true;
  has_result_object = true;
  template = record {
    is_complete = true;
    header = b'0' ∷ b'a' ∷ [];
    epoch = 3;
    bits = 5;
    target = b'0' ∷ b'b' ∷ [];
    height = 4000;
  };
  result_converts_to_bool = true;
  result_as_bool = true;
}

abbrev any_name : ℕ → String
any_name header = "header"

abbrev same_number : ℕ → ℕ
same_number n = n

submit_to_node-process_node_response_example :
    (g1 : Getwork) × (submit_to_node false 5 2 [] [] [] (node_client (some 4) (1 ∷ []))
      ≡ goes_on g1)
    × (g2 : Getwork) × (handle_connect succeeded 5 700 g1 ≡ goes_on g2)
    × (g2.pending_request ≡ some (submit_block 42 [] [] []))
    × (g3 : Getwork) × (process_node_response same_number same_number any_name 500 answer 730 g2
        ≡ goes_on g3)
    × (g3.calls ≡ called_accepted 30 2 ∷ [])
submit_to_node-process_node_response_example =
    submit_to_node-process_node_response same_number same_number any_name 500 2 1 700 730 5 [] 4 []
      [] [] answer (node_client (some 4) (1 ∷ [])) refl refl refl refl refl refl

abbrev no_answer : List ℕ → Option NodeResponse
no_answer line = some answer

abbrev two_hundred : List ℕ → Option ℕ
two_hundred text = some 200

abbrev node_story : List NodeEvent
node_story =
    connect_event 5 1
    ∷ connected_event succeeded 5 700
    ∷ written_event succeeded 5
    ∷ solution_event 5 2 [] [] []
    ∷ read_event succeeded 5 800 (b'x' ∷ 13 ∷ 10 ∷ [])
    ∷ []

abbrev status_line : List ℕ
status_line = http_1 ++ b'0' ∷ b' ' ∷ b'2' ∷ 13 ∷ 10 ∷ 13 ∷ 10 ∷ b'{' ∷ []

abbrev at_start : HttpState
at_start = record { linenum = 0; is_header = true; has_payload = false; status = 0 }

abbrev keep_client : NodeResponse → Getwork → Continuation
keep_client m g = goes_on g

-- What a stream makes of two hexadecimal digits.
abbrev two_digits : ℕ → ℕ → Option ℕ
two_digits a b = elim (from_hex_char a) [
  | none ↦ none
  | some h ↦ elim (from_hex_char b) [ none ↦ some h | some l ↦ some (h * 16 + l) ]
]

two_digits_lem : (c : ℕ) → c < 256 → two_digits (hex_char (c / 16)) (hex_char (c % 16)) ≡ some c
unfolding from_hex_char
two_digits_lem c h = ground arith

url_decode-url_encode_example :
    url_decode two_digits (b'%' ∷ b'2' ∷ b'5' ∷ b'%' ∷ b'6' ∷ b'1' ∷ []) ≡ some (b'%' ∷ b'a' ∷ [])
url_decode-url_encode_example =
    url_decode-url_encode two_digits (b'%' ∷ b'a' ∷ []) two_digits_lem
      (omega arith, (omega arith, tt))

abbrev simulation : Simulate
simulation = record {
  worker = new_worker;
  connected = true;
  session = some 3;
  total_duration = 0;
  solution_arrived = false;
  block = 30000;
  current = no_work;
  calls = [];
}
