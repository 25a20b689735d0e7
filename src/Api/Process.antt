-- ===== src/Api/Process.antt =====
-- libapicore/ApiServer.cpp: `processRequest`.
use firominer.Base.{
  suc, minus, Bool, true, false, not, ◌||◌, Option, none, some, List, [], ◌∷◌, String,
}
use firominer.Base.{str_eq, if◌then◌else◌}
use firominer.Farm.{shuffle}
use firominer.Farm.Scrambler.{get_nonce_scrambler_info}
use firominer.Pool.{connections}
use firominer.Pool.Connections.{connection_entries}
use firominer.Api.{
  JsonCpp, Library, Api, Response, Outcome, returns, throws, ends_process, new_response,
}
use firominer.Api.{with_error, with_result, boolean, pong, stat1, stat_detail, connection_list}
use firominer.Api.{scrambler_info, Stat1, invalid_request, authorization_needed, invalid_password}
use firominer.Api.{method_not_found}
use firominer.Api.Values.{Fetched, fetched, fetch_throws, get_object, get_string, parse_request_id}
use firominer.Api.Authorize.{passwords_match}
use firominer.Api.Details.{
  get_miner_stat1, get_miner_stat_detail, DetailEnd, has_detail, detail_throws,
}
use firominer.Api.Details.{detail_ends_process}
use firominer.Api.Methods.{with_fetched, with_access, with_params, with_farm, miner_addconnection}
use firominer.Api.Methods.{
  miner_setactiveconnection, miner_removeconnection, miner_setscramblerinfo,
}
use firominer.Api.Methods.{miner_pausegpu, miner_setverbosity}

-- The methods, and `other` for any other text.
pub data Method : Type 0 where
  getstat1 getstatdetail shuffles ping restarts reboots getconnections : Method
  addconnection setactiveconnection removeconnection : Method
  getscramblerinfo setscramblerinfo pausegpu setverbosity other : Method

abbrev pub methods : List (String × Method)
methods =
    ("miner_getstat1", getstat1)
    ∷ ("miner_getstatdetail", getstatdetail)
    ∷ ("miner_shuffle", shuffles)
    ∷ ("miner_ping", ping)
    ∷ ("miner_restart", restarts)
    ∷ ("miner_reboot", reboots)
    ∷ ("miner_getconnections", getconnections)
    ∷ ("miner_addconnection", addconnection)
    ∷ ("miner_setactiveconnection", setactiveconnection)
    ∷ ("miner_removeconnection", removeconnection)
    ∷ ("miner_getscramblerinfo", getscramblerinfo)
    ∷ ("miner_setscramblerinfo", setscramblerinfo)
    ∷ ("miner_pausegpu", pausegpu)
    ∷ ("miner_setverbosity", setverbosity)
    ∷ []

-- The chain of comparisons.
unfoldable pub method_of : List (String × Method) → String → Method
method_of [] text = other
method_of ((name, method) ∷ rest) text = if str_eq text name then method else method_of rest text

abbrev pub set_authenticated : Bool → Api → Api
set_authenticated b s = record s { connection = record s.connection { is_authenticated = b } }

abbrev pub answer_stat1 : Api → Response → Option Stat1 → Outcome
answer_stat1 s r none = ends_process
answer_stat1 s r (some x) = returns s (with_result (stat1 x) r)

abbrev pub answer_detail : Api → Response → DetailEnd → Outcome
answer_detail s r (has_detail x) = returns s (with_result (stat_detail x) r)
answer_detail s r detail_throws = throws s
answer_detail s r detail_ends_process = ends_process

-- A value that is missing or not of its type makes the request invalid.
unfoldable pub or_invalid : {A : Type 0} → Fetched A → Api → (A → Response → Outcome) → Outcome
or_invalid (fetched true a r) s k = k a r
or_invalid (fetched false a r) s k = returns s (with_error (minus 32600) invalid_request r)
or_invalid fetch_throws s k = throws s

module _ (j : JsonCpp) (lib : Library) where
  open j use {Value}

  unfoldable pub call_method : Method → Value → Response → Api → Outcome
  unfolding get_miner_stat1 get_miner_stat_detail shuffle with_access connection_entries
      get_nonce_scrambler_info miner_addconnection miner_setactiveconnection miner_removeconnection
      miner_setscramblerinfo miner_pausegpu miner_setverbosity
  call_method getstat1 request r s = answer_stat1 s r (get_miner_stat1 s.manager)
  call_method getstatdetail request r s =
      answer_detail s r (get_miner_stat_detail lib.now s.manager)
  call_method shuffles request r s =
      returns (with_farm s (shuffle lib.setting.random s.manager.farm))
        (with_result (boolean true) r)
  call_method ping request r s = returns s (with_result pong r)
  call_method restarts request r s =
      with_access s r
        λ r1. returns (record s { restarts = suc s.restarts }) (with_result (boolean true) r1)
  call_method reboots request r s = with_access s r λ r1.
      returns (record s { reboots = suc s.reboots })
        (with_result (boolean (lib.spawns_reboot s.reboots)) r1)
  call_method getconnections request r s = returns s (
      with_result
        (connection_list
          (connection_entries s.manager.active_connection_idx 0 (connections s.manager)))
        r)
  call_method addconnection request r s = miner_addconnection j lib request r s
  call_method setactiveconnection request r s = miner_setactiveconnection j lib request r s
  call_method removeconnection request r s = miner_removeconnection j lib request r s
  call_method getscramblerinfo request r s =
      returns s (with_result (scrambler_info (get_nonce_scrambler_info s.manager.farm)) r)
  call_method setscramblerinfo request r s = miner_setscramblerinfo j lib request r s
  call_method pausegpu request r s = miner_pausegpu j lib request r s
  call_method setverbosity request r s = miner_setverbosity j lib request r s
  call_method other request r s = returns s (with_error (minus 32601) method_not_found r)

  -- A right password leaves the response without a result.
  abbrev pub check_password : String → Response → Api → Outcome
  check_password psw r s =
      if passwords_match lib psw s.connection.password
      then returns (set_authenticated true s) r
      else returns s (with_error (minus 401) invalid_password r)

  unfoldable pub api_authorize : Value → Response → Api → Outcome
  unfolding get_object get_string passwords_match
  api_authorize request r s =
      let s' = set_authenticated false s in
      with_params j lib request r s' λ params r1.
        with_fetched (get_string j "psw" "" params false r1) s' λ psw r2. check_password psw r2 s'

  -- What follows the strict checks.
  unfoldable pub check_authentication : String → Value → Response → Api → Outcome
  unfolding api_authorize method_of call_method
  check_authentication method request r s =
      if not s.connection.is_authenticated || str_eq method "api_authorize"
      then if str_eq method "api_authorize"
        then api_authorize request r s
        else returns s (with_error (minus 403) authorization_needed r)
      else call_method (method_of methods method) request r s

  unfoldable pub process_request : Value → Api → Outcome
  unfolding parse_request_id get_string check_authentication
  process_request request s = with_fetched (parse_request_id j request new_response) s λ _ r1.
      or_invalid (get_string j "jsonrpc" "" request false r1) s λ jsonrpc r2.
        if str_eq jsonrpc "2.0"
        then or_invalid (get_string j "method" "" request false r2) s
            (λ method r3. check_authentication method request r3 s)
        else returns s (with_error (minus 32600) invalid_request r2)
