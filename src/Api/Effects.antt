-- ===== src/Api/Effects.antt =====
-- libapicore/ApiServer.cpp: all that a request can do to the state.
pub mod Methods
pub mod Requests
pub mod Access
pub mod Scrambler
use firominer.Base.{
  minus, [], ◌∷◌, ℕ, suc, Bool, true, false, not, ◌||◌, ◌≡◌, refl, Option, none, some,
}
use firominer.Base.{String, sym, Bool-cases, inl, inr, arith, leb, str_eq, if◌then◌else◌, subst}
use firominer.Pool.{Manager, Outcome, done, threw, fault, Uri}
use firominer.Pool.Connections.{add_connection}
use firominer.Pool.Events.{Event, Setting, step, Reach, here, returns, throws}
use firominer.Farm.{Farm, shuffle}
use firominer.Farm.Calls.{call}
use firominer.Farm.Scrambler.{get_miner, on_miner, set_nonce_scrambler, set_nonce_segment_width}
use firominer.Miner.{Miner}
use firominer.Miner.Flags.{api_request}
use firominer.Api.{JsonCpp, Library, Api, Response, with_error, with_result, boolean}
use firominer.Api.{authorization_needed}
use firominer.Api.Values.{Fetched, get_uint, get_object, get_bool, get_string, get_uint64}
use firominer.Api.Values.{parse_request_id}
use firominer.Api.Authorize.{passwords_match}
use firominer.Api.Details.{
  get_miner_stat1, get_miner_stat_detail, DetailEnd, has_detail, detail_throws,
}
use firominer.Api.Details.{detail_ends_process}
use firominer.Api.Methods.{with_fetched, with_access, on_member, answer_call, or_invalid_index}
use firominer.Api.Methods.{
  with_manager, with_farm, clamp_width, with_params, add_parsed, with_width,
}
use firominer.Api.Methods.{
  set_scrambler, given_nonce, parsed_nonce, pause_found, miner_addconnection,
}
use firominer.Api.Methods.{
  miner_setactiveconnection, miner_removeconnection, miner_setscramblerinfo,
}
use firominer.Api.Methods.{miner_pausegpu, miner_setverbosity}
use firominer.Api.Process.{or_invalid, set_authenticated, answer_stat1, answer_detail, call_method}
use firominer.Api.Process.{api_authorize, check_authentication, process_request, check_password}
use firominer.Api.Process.{
  method_of, methods, Method, getstat1, getstatdetail, shuffles, ping, restarts,
}
use firominer.Api.Process.{
  reboots, getconnections, addconnection, setactiveconnection, removeconnection,
}
use firominer.Api.Process.{getscramblerinfo, setscramblerinfo, pausegpu, setverbosity, other}
use firominer.Api.Kept.{
  Kept, with_fetched-Kept, or_invalid-Kept, or_invalid_index-Kept, on_member-Kept,
}
use firominer.Api.Kept.{with_access-Kept, if-Kept}
use firominer.Getwork.Read.{starts_with}
use firominer.Pool
use firominer.Miner
use firominer.Farm.Calls
use firominer.Farm
use firominer.Api

-- The password in a request.
abbrev pub psw_of : (j : JsonCpp) → j.Value → Option String
psw_of j request = j.as_string (j.member (j.member request "params") "psw")

-- What one request does: nothing; the authentication of the connection is set, to true only where
-- the request has a right password; or, on an authenticated connection, the nonces are shuffled, or
-- the connection has the write access and the manager goes through events.
pub data Effect (j : JsonCpp) (lib : Library) (request : j.Value) (s s' : Api) : Type 0 where
  nothing : s' ≡ s → Effect j lib request s s'
  denies : s' ≡ set_authenticated false s → Effect j lib request s s'
  authorizes :
      (psw : String)
      → psw_of j request ≡ some psw
      → passwords_match lib psw s.connection.password ≡ true
      → s' ≡ set_authenticated true s
      → Effect j lib request s s'
  shuffles_nonces :
      s.connection.is_authenticated ≡ true
      → s' ≡ with_farm s (shuffle lib.setting.random s.manager.farm)
      → Effect j lib request s s'
  writes :
      s.connection.is_authenticated ≡ true
      → s.connection.readonly ≡ false
      → s'.connection ≡ s.connection
      → Reach lib.setting s.manager s'.manager
      → Effect j lib request s s'
