-- ===== src/Stratum/Extranonce.antt =====
-- libpoolprotocols/stratum/EthStratumClient.cpp: the extranonce and the nonces that are submitted.
-- Text is the list of its character codes, on one line.
use firominer.Base.{
  ℕ, ◌+◌, ◌*◌, ◌%◌, Bool, true, false, ◌&&◌, List, [], ◌∷◌, Option, none, some, length,
}
use firominer.Base.{drop, ltb, leb, ◌==◌, if◌then◌else◌}
use firominer.Hex.{from_hex_char, hex_prefix, pad_right, to_hex, bytes_to_hex}
use firominer.Stratum.{Stratum}
use firominer.Stratum.Pleas.{enqueue_response_plea}

-- `m_session->extraNonce` and `m_session->extraNonceSizeBytes`.
pub record SessionNonce : Type 0 where
  pub extra_nonce : ℕ
  pub extra_nonce_size_bytes : ℕ

abbrev is_hex_char : Option ℕ → Bool
is_hex_char none = false
is_hex_char (some d) = true

-- Every character matches `[A-Fa-f0-9]`.
unfoldable pub is_hex : List ℕ → Bool
unfolding from_hex_char
is_hex [] = true
is_hex (c ∷ cs) = is_hex_char (from_hex_char c) && is_hex cs

abbrev pub digit_or_zero : Option ℕ → ℕ
digit_or_zero none = 0
digit_or_zero (some d) = d

-- `stoull` of hexadecimal digits, on from the number so far.
unfoldable pub stoull : ℕ → List ℕ → ℕ
unfolding from_hex_char
stoull n [] = n
stoull n (c ∷ cs) = stoull (n * 16 + digit_or_zero (from_hex_char c)) cs

-- The second group of the match of `^(0x)?([A-Fa-f0-9]{2,})$`, where there is one.
abbrev pub hex_part : List ℕ → List ℕ
hex_part enonce = drop (hex_prefix enonce) enonce

abbrev pub is_valid_extranonce : List ℕ → Bool
is_valid_extranonce part =
    leb 2 (length part) && (is_hex part && (length part % 2 == 0 && leb (length part) 8))

-- `processExtranonce`: whether it succeeds, and the session.
unfoldable pub process_extranonce : List ℕ → SessionNonce → Bool × SessionNonce
unfolding is_hex stoull pad_right
process_extranonce enonce session =
    let part = hex_part enonce in
    if is_valid_extranonce part
    then (
      true,
      record {
        extra_nonce_size_bytes = length part;
        extra_nonce = stoull 0 (pad_right part 16 b'0');
      },
    )
    else (false, session)

pub data StratumMode : Type 0 where
  stratum ethproxy ethereumstratum ethereumstratum2 : StratumMode

-- What `submitSolution` reads of a solution and of the connection.
pub record Submission : Type 0 where
  pub midx : ℕ
  pub nonce : ℕ
  pub job : List ℕ
  pub ex_size_bytes : ℕ
  pub header : List ℕ
  pub mix_hash : List ℕ
  pub user_dot_worker : List ℕ
  pub worker_name : List ℕ
  pub worker_id : List ℕ

pub record Request : Type 0 where
  pub id : ℕ
  pub is_submit_work : Bool
  pub params : List (List ℕ)
  pub worker : Option (List ℕ)

abbrev pub worker_of : List ℕ → Option (List ℕ)
worker_of [] = none
worker_of (c ∷ cs) = some (c ∷ cs)

abbrev pub rest_of_nonce : Submission → List ℕ
rest_of_nonce x = drop x.ex_size_bytes (to_hex x.nonce false 16)

-- The request for a solution; ETHPROXY has the method `eth_submitWork`, the others `mining.submit`.
unfoldable pub submit_request : StratumMode → Submission → Request
unfolding to_hex bytes_to_hex
submit_request stratum x = record {
  id = 40 + x.midx;
  is_submit_work = false;
  params =
      x.user_dot_worker
      ∷ x.job
      ∷ to_hex x.nonce true 16
      ∷ bytes_to_hex x.header 2 true
      ∷ bytes_to_hex x.mix_hash 2 true
      ∷ [];
  worker = worker_of x.worker_name;
}
submit_request ethproxy x = record {
  id = 40 + x.midx;
  is_submit_work = true;
  params =
      to_hex x.nonce true 16 ∷ bytes_to_hex x.header 2 true ∷ bytes_to_hex x.mix_hash 2 true ∷ [];
  worker = worker_of x.worker_name;
}
submit_request ethereumstratum x = record {
  id = 40 + x.midx;
  is_submit_work = false;
  params = x.user_dot_worker ∷ x.job ∷ rest_of_nonce x ∷ [];
  worker = none;
}
submit_request ethereumstratum2 x = record {
  id = 40 + x.midx;
  is_submit_work = false;
  params = x.job ∷ rest_of_nonce x ∷ x.worker_id ∷ [];
  worker = none;
}

-- `submitSolution`: the request that is sent, and the client.
unfoldable pub submit_solution :
    Bool → StratumMode → ℕ → Submission → Stratum → Option Request × Stratum
unfolding submit_request enqueue_response_plea
submit_solution is_authorized mode now x s =
    let id = 40 + x.midx in
    let max_id = if ltb s.solution_submitted_max_id id then id else s.solution_submitted_max_id in
    if is_authorized
    then (
      some (submit_request mode x),
      enqueue_response_plea now (record s { solution_submitted_max_id = max_id }),
    )
    else (none, s)
