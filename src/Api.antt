-- ===== src/Api.antt =====
-- libapicore/ApiServer.h and ApiServer.cpp: the server that answers JSON-RPC and HTTP requests about
-- the farm and the pool manager. What JsonCpp, Boost and the C library answer are parameters.
pub mod Values
pub mod Authorize
pub mod Details
pub mod Methods
pub mod Process
pub mod Kept
pub mod Effects
pub mod Answers
pub mod Receive
pub mod Server
use firominer.Base.{ℕ, ℤ, minus, Bool, true, false, Option, none, some, List, String}
use firominer.Miner.Flags.{MinerPauseEnum}
use firominer.Pool.{Manager, PoolError, Uri}
use firominer.Pool.Events.{Setting}
use firominer.Pool.Connections.{ConnectionEntry}
use firominer.Farm.Scrambler.{ScramblerInfo}

-- What the code asks JsonCpp about a value. `none` is an exception.
pub record JsonCpp : Type 1 where
  pub Value : Type 0
  pub null : Value
  pub is_member : Value → String → Option Bool
  pub member : Value → String → Value
  pub is_empty : Value → Bool
  pub is_bool : Value → Bool
  pub is_uint : Value → Bool
  pub is_string : Value → Bool
  pub is_object : Value → Bool
  pub as_bool : Value → Bool
  pub as_uint : Value → ℕ
  pub as_uint64 : Value → Option ℕ
  pub as_string : Value → Option String

-- What the process and its libraries give: the random device and `boost::iequals` of the manager's
-- setting, the bytes of a `std::string`, the URI of a text or its exception, `std::stoul` to base 16
-- or its exception, whether the script of the n-th reboot is spawned, the time in seconds, and
-- `LOG_NEXT` of the build.
pub record Library : Type 0 where
  pub setting : Setting
  pub bytes : String → List ℕ
  pub parse_uri : String → Option Uri
  pub stoul : String → Option ℕ
  pub spawns_reboot : ℕ → Bool
  pub now : ℕ
  pub log_next : ℕ

pub data RequestId : Type 0 where
  null_id : RequestId
  uint_id : ℕ → RequestId
  string_id : String → RequestId

-- The texts of the errors; those that name a member have its name.
pub data ErrorText : Type 0 where
  missing invalid_type empty bad_value : String → ErrorText
  missing_id invalid_id invalid_request : ErrorText
  authorization_needed invalid_password : ErrorText
  method_not_available method_not_found : ErrorText
  bad_uri : String → ErrorText
  what : PoolError → ErrorText
  invalid_index invalid_nonce missing_parameters : ErrorText
  index_out_of_bounds verbosity_out_of_bounds : ErrorText

-- `getMinerStat1`: the accepted, rejected and failed solutions, the pool, and the temperatures.
pub record Stat1 : Type 0 where
  pub accepted : ℕ
  pub rejected : ℕ
  pub failed : ℕ
  pub host : String
  pub port : ℕ
  pub temps : List ℕ

pub record Shares : Type 0 where
  pub accepted : ℕ
  pub rejected : ℕ
  pub failed : ℕ
  pub seconds : ℕ

-- `getMinerStatDetailPerMiner`; the segment is the text of its first nonce and of the one after it.
pub record DeviceDetail : Type 0 where
  pub index : ℕ
  pub temp_c : ℕ
  pub shares : Shares
  pub paused : Bool
  pub pause_reason : Option (List MinerPauseEnum)
  pub segment_from : List ℕ
  pub segment_to : List ℕ

-- `getMinerStatDetail`.
pub record Detail : Type 0 where
  pub uri : String
  pub connected : Bool
  pub switches : ℕ
  pub epoch : Option ℕ
  pub epoch_changes : ℕ
  pub shares : Shares
  pub temperatures : Option (ℕ × ℕ)
  pub devices : List DeviceDetail

pub data Result : Type 0 where
  boolean : Bool → Result
  pong : Result
  stat1 : Stat1 → Result
  stat_detail : Detail → Result
  connection_list : List ConnectionEntry → Result
  scrambler_info : ScramblerInfo → Result

-- `jResponse`: a member that has not been written is `none`.
pub record Response : Type 0 where
  pub id : Option RequestId
  pub result : Option Result
  pub error_code : Option ℤ
  pub error_message : Option ErrorText

-- `jResponse` with nothing but the version.
abbrev pub new_response : Response
new_response = record { id = none; result = none; error_code = none; error_message = none }

-- Both members of `jResponse["error"]` are written.
abbrev pub with_error : ℤ → ErrorText → Response → Response
with_error code text r = record r { error_code = some code; error_message = some text }

abbrev pub with_result : Result → Response → Response
with_result x r = record r { result = some x }

-- A connection to the API: the members that requests read and write.
pub record ApiConnection : Type 0 where
  pub session_id : ℕ
  pub readonly : Bool
  pub password : String
  pub is_authenticated : Bool

-- What a request acts on. `restarts` counts the calls of `restart_async` that wait on the strand,
-- `reboots` the calls of `reboot`, and `log_options` is `g_logOptions`.
pub record Api : Type 0 where
  pub connection : ApiConnection
  pub manager : Manager
  pub log_options : ℕ
  pub restarts : ℕ
  pub reboots : ℕ

-- `processRequest` returns, throws an exception that its caller catches, or ends the process.
pub data Outcome : Type 0 where
  returns : Api → Response → Outcome
  throws : Api → Outcome
  ends_process : Outcome
