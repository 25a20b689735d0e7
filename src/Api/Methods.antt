-- ===== src/Api/Methods.antt =====
-- libapicore/ApiServer.cpp: the methods of `processRequest` that write.
use firominer.Base.{ℕ, minus, Bool, true, false, Option, none, some, [], ◌∷◌, String, ltb, leb}
use firominer.Base.{if◌then◌else◌}
use firominer.Getwork.Read.{starts_with}
use firominer.Miner.{Miner}
use firominer.Miner.Flags.{api_request}
use firominer.Farm.{Farm}
use firominer.Farm.Scrambler.{set_nonce_scrambler, set_nonce_segment_width, get_miner, on_miner}
use firominer.Pool.{Manager}
use firominer.Pool.Connections.{add_connection, remove_connection, set_active_connection}
use firominer.Pool.Connections.{set_active_connection_by_name}
use firominer.Api.{
  JsonCpp, Library, Api, Response, Outcome, returns, throws, ends_process, with_error,
}
use firominer.Api.{
  with_result, boolean, what, bad_uri, invalid_index, invalid_nonce, missing_parameters,
}
use firominer.Api.{index_out_of_bounds, verbosity_out_of_bounds}
use firominer.Api.Values.{
  Fetched, fetched, fetch_throws, get_bool, get_uint, get_object, get_string,
}
use firominer.Api.Values.{get_uint64, check_api_write_access}
use firominer.Pool
use firominer.Miner

-- `if (!getRequestValue(...)) return;` and what follows it.
unfoldable pub with_fetched : {A : Type 0} → Fetched A → Api → (A → Response → Outcome) → Outcome
with_fetched (fetched true a r) s k = k a r
with_fetched (fetched false a r) s k = returns s r
with_fetched fetch_throws s k = throws s

abbrev pub if_allowed : Bool × Response → Api → (Response → Outcome) → Outcome
if_allowed (true, r) s k = k r
if_allowed (false, r) s k = returns s r

-- `if (!checkApiWriteAccess(...)) return;` and what follows it.
unfoldable pub with_access : Api → Response → (Response → Outcome) → Outcome
unfolding check_api_write_access
with_access s r k = if_allowed (check_api_write_access s.connection.readonly r) s k

-- The answer to a member's presence, where the question may throw.
unfoldable pub on_member : Option Bool → Api → Outcome → Outcome → Outcome
on_member none s present absent = throws s
on_member (some true) s present absent = present
on_member (some false) s present absent = absent

abbrev pub with_manager : Api → Manager → Api
with_manager s m = record s { manager = m }

abbrev pub with_farm : Api → Farm → Api
with_farm s f = record s { manager = record s.manager { farm = f } }

-- A call on the manager, with its exception caught.
unfoldable pub answer_call : Api → Response → Pool.Outcome → Outcome
answer_call s r (Pool.Outcome.done m) = returns (with_manager s m) (with_result (boolean true) r)
answer_call s r (Pool.Outcome.threw err m) =
    returns (with_manager s m) (with_error (minus 422) (what err) r)
answer_call s r Pool.Outcome.fault = ends_process

-- The call that follows a value which is there; else the index is invalid.
unfoldable pub or_invalid_index :
    {A : Type 0} → Fetched A → Api → (A → Response → Outcome) → Outcome
or_invalid_index (fetched true a r) s k = k a r
or_invalid_index (fetched false a r) s k = returns s (with_error (minus 422) invalid_index r)
or_invalid_index fetch_throws s k = throws s

-- "Not below" 10; above 50 it becomes 40.
unfoldable pub clamp_width : ℕ → ℕ
clamp_width exp = let low = if ltb exp 10 then 10 else exp in if ltb 50 low then 40 else low

module _ (j : JsonCpp) (lib : Library) where
  open j use {Value}

  abbrev pub with_params : Value → Response → Api → (Value → Response → Outcome) → Outcome
  with_params request r s k = with_fetched (get_object j "params" j.null request false r) s k

  abbrev pub add_parsed : Api → Response → String → Option Pool.Uri → Outcome
  add_parsed s r text none = returns s (with_error (minus 422) (bad_uri text) r)
  add_parsed s r text (some u) =
      returns (with_manager s (add_connection s.manager u)) (with_result (boolean true) r)

  unfoldable pub miner_addconnection : Value → Response → Api → Outcome
  unfolding with_access get_object get_string add_connection
  miner_addconnection request r s = with_access s r λ r1. with_params request r1 s λ params r2.
      with_fetched (get_string j "uri" "" params false r2) s
        λ text r3. add_parsed s r3 text (lib.parse_uri text)

  unfoldable pub miner_setactiveconnection : Value → Response → Api → Outcome
  unfolding with_access get_object get_string get_uint set_active_connection
      set_active_connection_by_name
  miner_setactiveconnection request r s = with_access s r λ r1.
      with_params request r1 s λ params r2.
        on_member (j.is_member params "index") s
          (or_invalid_index (get_uint j "index" 0 params false r2) s
            λ idx r3. answer_call s r3 (set_active_connection s.manager idx))
          (or_invalid_index (get_string j "URI" "" params false r2) s λ text r3.
            answer_call s r3 (set_active_connection_by_name lib.setting.iequals s.manager text))

  unfoldable pub miner_removeconnection : Value → Response → Api → Outcome
  unfolding with_access get_object get_uint remove_connection
  miner_removeconnection request r s = with_access s r λ r1. with_params request r1 s λ params r2.
      with_fetched (get_uint j "index" 0 params false r2) s
        λ idx r3. answer_call s r3 (remove_connection s.manager idx)

  -- The nonce that is given, in the hexadecimal form or as a number; then what follows.
  abbrev pub parsed_nonce : Option ℕ → Response → Api → (Bool → ℕ → Response → Outcome) → Outcome
  parsed_nonce none r s k = returns s (with_error (minus 422) invalid_nonce r)
  parsed_nonce (some n) r s k = k true n r

  abbrev pub given_nonce :
      Option String → ℕ → Value → Response → Api → (Bool → ℕ → Response → Outcome) → Outcome
  given_nonce none old params r s k = throws s
  given_nonce (some text) old params r s k =
      if starts_with (b'0' ∷ b'x' ∷ []) (lib.bytes text)
      then parsed_nonce (lib.stoul text) r s k
      else with_fetched (get_uint64 j "noncescrambler" old params false r) s (k true)

  -- What follows the nonce: the width, and both are set if either was given.
  abbrev pub set_scrambler : ℕ → ℕ → Response → Api → Outcome
  set_scrambler nonce exp r s =
      returns
        (with_farm s
          (set_nonce_segment_width (set_nonce_scrambler s.manager.farm nonce) (clamp_width exp)))
        (with_result (boolean true) r)

  abbrev pub with_width : Value → Api → Bool → ℕ → Response → Outcome
  with_width params s any_value_provided nonce r =
      let old = s.manager.farm.nonce_segment_width in
      on_member (j.is_member params "segmentwidth") s
        (with_fetched (get_uint j "segmentwidth" old params false r) s
          λ exp r1. set_scrambler nonce exp r1 s)
        (if any_value_provided
          then set_scrambler nonce old r s
          else returns s (with_error (minus 32602) missing_parameters r))

  unfoldable pub miner_setscramblerinfo : Value → Response → Api → Outcome
  unfolding with_access get_object get_uint get_uint64 clamp_width set_nonce_scrambler
      set_nonce_segment_width
  miner_setscramblerinfo request r s = with_access s r λ r1. with_params request r1 s λ params r2.
      let old = s.manager.farm.nonce_scrambler in
      on_member (j.is_member params "noncescrambler") s
        (given_nonce (j.as_string (j.member params "noncescrambler")) old params r2 s
          (with_width params s))
        (with_width params s false old r2)

  abbrev pub pause_found : Bool → ℕ → Response → Api → Option Miner → Outcome
  pause_found pause idx r s none = returns s (with_error (minus 422) index_out_of_bounds r)
  pause_found pause idx r s (some m) =
      returns
        (with_farm s (
          on_miner s.manager.farm idx (
            if pause then (λ x. Miner.pause x api_request) else (λ x. Miner.resume x api_request))))
        (with_result (boolean true) r)

  unfoldable pub miner_pausegpu : Value → Response → Api → Outcome
  unfolding with_access get_object get_uint get_bool get_miner on_miner Miner.pause Miner.resume
  miner_pausegpu request r s = with_access s r λ r1. with_params request r1 s λ params r2.
      with_fetched (get_uint j "index" 0 params false r2) s λ idx r3.
        with_fetched (get_bool j "pause" false params false r3) s
          λ pause r4. pause_found pause idx r4 s (get_miner s.manager.farm idx)

  unfoldable pub miner_setverbosity : Value → Response → Api → Outcome
  unfolding with_access get_object get_uint
  miner_setverbosity request r s = with_access s r λ r1. with_params request r1 s λ params r2.
      with_fetched (get_uint j "verbosity" 0 params false r2) s λ verbosity r3.
        if leb lib.log_next verbosity
        then returns s (with_error (minus 422) verbosity_out_of_bounds r3)
        else returns (record s { log_options = verbosity }) (with_result (boolean true) r3)
