-- ===== src/Stratum/Response.antt =====
-- libpoolprotocols/stratum/EthStratumClient.cpp and PoolClient.h: what `processResponse` reads and
-- changes. A message is what JsonCpp answers to the code's questions about it; where a conversion
-- of JsonCpp would throw, there is no message here. The callbacks are set, as PoolManager sets them.
pub mod Answers
pub mod Hello
pub mod Jobs
pub mod Kept
pub mod Login
pub mod Notices
pub mod Phases
pub mod Refines
pub mod Submitted
pub mod Steps
pub mod Survival
pub mod Aborts
pub mod Settings
pub mod Process
pub mod Replies
use firominer.Base.{
  ℕ, ◌+◌, ◌*◌, Bool, true, false, ◌&&◌, ◌||◌, not, List, [], ◌∷◌, ◌++◌, Option, none,
}
use firominer.Base.{some, String, length, ltb, ◌==◌, if◌then◌else◌}
use firominer.Hex.{from_hex, HexBytes, bytes, bad_hex_character}
use firominer.Miner.{WorkPackage}
use firominer.Stratum.{Stratum, post, disconnects}
use firominer.Stratum.Disconnect.{mark_unrecoverable}
use firominer.Stratum.Extranonce.{SessionNonce, StratumMode, stratum, ethproxy, ethereumstratum}
use firominer.Stratum.Extranonce.{ethereumstratum2}

-- The texts of `method` that the code tells apart.
pub data Method : Type 0 where
  no_method mining_notify mining_set_difficulty mining_set_extranonce mining_set : Method
  mining_set_target mining_bye client_get_version other_method : Method

-- A JSON value that is read as an array: each function is a conversion of what stands at an index,
-- or of the empty text where nothing does.
pub record JsonArray : Type 0 where
  pub is_array : Bool
  pub is_empty : Bool
  pub size : ℕ
  -- The text at index 0.
  pub job : String
  pub as_string : ℕ → List ℕ
  -- `asInt64`, converted to `uint64_t`.
  pub as_int64 : ℕ → ℕ
  -- `strtoul` of the text, in base 0.
  pub strtoul : ℕ → ℕ
  -- `stoul` of the text, in base 16, unless it throws.
  pub stoul : ℕ → Option ℕ
  -- `GetHex` of `SetCompact` of the number that the text spells.
  pub target_of_bits : ℕ → List ℕ
  -- `getTargetFromDiff` of the number at index 0, or of 0.0001 if that is more.
  pub target_of_difficulty : List ℕ

-- A text that `stoi` or `stoul` is to convert: it is empty, or they throw, or give a number.
pub data NumberText : Type 0 where
  empty_text bad_number : NumberText
  number : ℕ → NumberText

-- The parameters of `mining.set`.
pub record MiningSet : Type 0 where
  pub is_object : Bool
  pub timeout : NumberText
  pub epoch : NumberText
  pub target : List ℕ
  pub algo : String
  pub extranonce : List ℕ

-- The result of the first request, as the two versions of EthereumStratum read it.
pub record LoginResult : Type 0 where
  pub is_object : Bool
  pub proto_is_2_0_0 : Bool
  pub has_encoding : Bool
  pub has_resume : Bool
  pub has_timeout : Bool
  pub has_maxerrors : Bool
  pub has_node : Bool
  pub first_is_array : Bool
  pub first_size : ℕ
  pub first_names_1_0_0 : Bool

pub record Message : Type 0 where
  pub id : ℕ
  pub has_jsonrpc : Bool
  -- `jsonrpc` is the text "2.0".
  pub is_version_2_0 : Bool
  pub error_is_empty : Bool
  -- The text of `code` in `error`.
  pub error_code : List ℕ
  pub method : Method
  pub has_params : Bool
  pub params : JsonArray
  pub mining_set_params : MiningSet
  pub has_result : Bool
  pub result : JsonArray
  pub result_is_string : Bool
  pub result_text : List ℕ
  pub result_is_bool : Bool
  pub result_as_bool : Bool
  pub login_result : LoginResult

-- `Session`, less its start and its last transmission.
pub record Session : Type 0 where
  pub subscribed : Bool
  pub authorized : Bool
  pub nonce : SessionNonce
  pub next_work_boundary : ℕ
  pub first_mining_set : Bool
  pub timeout : ℕ
  pub session_id : List ℕ
  pub worker_id : List ℕ
  pub algo : String
  pub epoch : ℕ

abbrev pub new_session : Session
new_session = record {
  subscribed = false;
  authorized = false;
  nonce = record { extra_nonce = 0; extra_nonce_size_bytes = 0 };
  next_work_boundary = 0x00000000ffff0000000000000000000000000000000000000000000000000000;
  first_mining_set = false;
  timeout = 30;
  session_id = [];
  worker_id = [];
  algo = "ethash";
  epoch = 0;
}

-- Requests and answers that `processResponse` sends; `null_request` is an empty JSON value.
pub data Sent : Type 0 where
  mining_subscribe extranonce_subscribe mining_authorize get_work null_request : Sent
  version_reply : ℕ → Bool → Sent

-- Calls of `m_onConnected`, `m_onSolutionAccepted` and `m_onSolutionRejected`.
pub data Call : Type 0 where
  on_connected : Call
  on_solution_accepted : ℕ → ℕ → Bool → Call
  on_solution_rejected : ℕ → ℕ → Call

-- The session's data mean nothing where `stratum.session`, which is `m_session`, is null.
pub record Client : Type 0 where
  pub stratum : Stratum
  pub session : Session
  pub current : WorkPackage
  pub new_job_processed : Bool
  pub sent : List Sent
  pub calls : List Call

-- How a call ends: it returns, or it throws a `std::exception`, which the reading of the socket
-- catches, or the process ends, at a null pointer or at an exception that nothing catches.
pub data Outcome : Type 0 where
  returns throws : Client → Outcome
  aborts : Outcome

abbrev pub is_some {ℓ} : {A : Type ℓ} → Option A → Bool
is_some none = false
is_some (some a) = true

unfoldable pub is_subscribed : Client → Bool
is_subscribed c = is_some c.stratum.session && c.session.subscribed

unfoldable pub is_authorized : Client → Bool
is_authorized c = is_some c.stratum.session && c.session.authorized

-- A write through `m_session`.
abbrev pub write_session : Option ℕ → Session → Client → Outcome
write_session none s c = aborts
write_session (some start) s c = returns (record c { session = s })

abbrev pub send : Sent → Client → Client
send x c = record c { sent = c.sent ++ x ∷ [] }

abbrev pub call : Call → Client → Client
call x c = record c { calls = c.calls ++ x ∷ [] }

abbrev pub on_stratum : (Stratum → Stratum) → Client → Client
on_stratum f c = record c { stratum = f c.stratum }

abbrev pub post_disconnect : Client → Client
post_disconnect c = on_stratum (post disconnects) c

-- The connection is given up: it is marked, and its end is posted.
abbrev pub give_up : Client → Client
give_up c = post_disconnect (on_stratum mark_unrecoverable c)

-- The protocol that a stratum mode stands for.
abbrev pub protocol : ℕ → Option StratumMode
protocol mode =
    if mode == 0
    then some stratum
    else if mode == 1
    then some ethproxy
    else if mode == 2
    then some ethereumstratum
    else if mode == 3
    then some ethereumstratum2
    else none

abbrev pub mode_of : Client → ℕ
mode_of c = c.stratum.conn.stratum_mode

abbrev pub is_confirmed : Client → Bool
is_confirmed c = c.stratum.conn.stratum_mode_confirmed

-- The number that bytes spell, big endian first, on from the number so far.
unfoldable pub big_endian : ℕ → List ℕ → ℕ
big_endian n [] = n
big_endian n (b ∷ bs) = big_endian (n * 256 + b) bs

-- `h256` of bytes: another count of them than 32 gives 0.
abbrev pub hash_of_bytes : HexBytes → Option ℕ
hash_of_bytes bad_hex_character = none
hash_of_bytes (bytes bs) = some (if length bs == 32 then big_endian 0 bs else 0)

-- `h256` of a text; `none` is that it throws.
unfoldable pub hash_of_text : List ℕ → Option ℕ
unfolding from_hex big_endian
hash_of_text text = hash_of_bytes (from_hex text true)
