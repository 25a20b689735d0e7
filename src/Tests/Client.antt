-- ===== src/Tests/Client.antt =====
-- The stratum client at concrete inputs.
use firominer.Stratum.Detection.{attempts_end, attempts_end_lem}
use firominer.Base.{
  ℕ, ◌+◌, ◌*◌, ◌^◌, ◌≡◌, refl, true, false, List, [], ◌∷◌, ◌++◌, none, some, arith,
}
use firominer.Stratum.{Stratum, StratumUri}
use firominer.Stratum.Timer.{Timeouts}
use firominer.Stratum.Extranonce.{SessionNonce, Submission, process_extranonce, hex_part, stoull}
use firominer.Stratum.Extranonce.{rest_of_nonce, is_hex}
use firominer.Stratum.Nonce.{process_extranonce-rest_of_nonce}
use firominer.Hex.{to_hex, pad_right, from_hex_char}
use firominer.Hex.Digits.{hex_fixed}

abbrev pub detecting_uri : StratumUri
detecting_uri = record {
  stratum_mode = 3;
  stratum_mode_confirmed = false;
  unrecoverable = false;
  responds = true;
  total_duration = 0;
  is_secure = false;
  version = 999;
  needs_resolver = true;
}

-- A client that is connected and waits for the answer to its login.
abbrev pub client : Stratum
client = record {
  connecting = false;
  disconnecting = false;
  connected = true;
  authpending = false;
  tx_pending = false;
  socket = some true;
  securesocket = none;
  endpoints = 1 ∷ 2 ∷ [];
  conn = detecting_uri;
  session = none;
  response_pleas_count = 1;
  response_plea_older = 5000;
  response_plea_times = 5000 ∷ [];
  solution_submitted_max_id = 0;
  tasks = [];
  timer_runs = true;
  disconnections = 0;
}

abbrev connecting_client : Stratum
connecting_client = record client { connecting = true; connected = false }

abbrev idle_client : Stratum
idle_client = record client { response_pleas_count = 0; response_plea_times = [] }

abbrev times : List (ℕ × ℕ)
times = (1, 60000) ∷ (2, 120000) ∷ (3, 180000) ∷ []

abbrev timeouts : Timeouts
timeouts = record { response_timeout = 2; work_timeout = 180; current_timestamp = 5000 }

-- "0x0f2a".
abbrev extranonce : List ℕ
extranonce = b'0' ∷ b'x' ∷ b'0' ∷ b'f' ∷ b'2' ∷ b'a' ∷ []

abbrev session : SessionNonce
session = record { extra_nonce = 0; extra_nonce_size_bytes = 0 }

abbrev pub submission : Submission
submission = record {
  midx = 1;
  nonce = 3882 * 16 ^ 12 + 255;
  job = [];
  ex_size_bytes = 4;
  header = [];
  mix_hash = [];
  user_dot_worker = [];
  worker_name = [];
  worker_id = [];
}

process_extranonce-rest_of_nonce_example :
    (to_hex submission.nonce false 16
      ≡ hex_fixed 4 (stoull 0 (hex_part extranonce)) ++ rest_of_nonce submission)
    × (rest_of_nonce submission ≡ hex_fixed 12 255)
unfolding process_extranonce is_hex stoull pad_right from_hex_char
process_extranonce-rest_of_nonce_example =
    process_extranonce-rest_of_nonce extranonce session submission 255 refl refl (omega arith) refl

-- A client that has resolved its host and has not tried a mode yet.
abbrev ready_client : Stratum
ready_client = record idle_client {
  connected = false;
  conn = record detecting_uri { stratum_mode = 3; responds = false };
}

attempts_end_lem_example :
    (s' : Stratum) × (attempts_end ((4, 240000) ∷ times) ready_client ≡ some s')
    × (s'.conn.unrecoverable ≡ true)
    × (s'.disconnections ≡ 1)
attempts_end_lem_example =
    attempts_end_lem 3 ((4, 240000) ∷ times) ready_client (omega arith)
      (record {
        idle = refl;
        still = refl;
        first = 1;
        others = 2 ∷ [];
        has_endpoint = refl;
        open_mode = refl;
        at_mode = refl;
        unconfirmed = refl;
        recoverable = refl;
      })
      refl
