-- ===== src/Tests/Api.antt =====
-- The API at concrete inputs.
use firominer.Base.{ℕ, ◌≡◌, ◌≢◌, ◌↔◌, refl, arith, true, false, Option, none, some, List, [], ◌∷◌}
use firominer.Base.{str_eq, get_elem?, map, negsuc, All, if◌then◌else◌}
use firominer.Tests.Farm.{random, farm}
use firominer.Tests.Pool.{manager, setting, uri}
use firominer.Tests.Json.{Json, json, codes, call_of, object, field, end, text, number, nothing}
use firominer.Hex.{to_hex}
use firominer.Miner.{paused, Miner, new_miner, set_epoch, no_work, WorkPackage}
use firominer.Farm.{new_farm}
use firominer.Farm.Work.{set_work_farm, with_epoch}
use firominer.Farm.Mining.{IsWellFormed}
use firominer.Farm.WellFormed.{set_work_farm-IsWellFormed}
use firominer.Pool.{Manager, new_manager}
use firominer.Pool.Connections.{get_active_connection}
use firominer.Api.{Api, Library, Outcome, uint_id, Detail, DeviceDetail, new_response}
use firominer.Api.Authorize.{passwords_match}
use firominer.Api.Authorize.Compare.{passwords_match-same}
use firominer.Api.Process.{process_request, or_invalid}
use firominer.Api.Methods.{miner_setscramblerinfo, with_fetched, clamp_width}
use firominer.Api.Kept.{Kept}
use firominer.Api.Effects.Access.{process_request-Unentered, Unentered}
use firominer.Api.Effects.Access.{process_request-IsUnwritten, IsUnwritten}
use firominer.Api.Effects.Scrambler.{miner_setscramblerinfo-Scrambles, Scrambles}
use firominer.Api.Details.{get_miner_stat_detail, has_detail}
use firominer.Api.Details.Segments.{get_miner_stat_detail-set_work_farm}
use firominer.Api.Receive.{Receiver, HttpRequest}
use firominer.Api.Server.{new_server, on_disconnected}
use firominer.Api.Server.Sessions.{
  server_steps, server_steps-HasSessions, HasSessions, starts, accepts,
}

abbrev library : Library
library = record {
  setting = setting;
  bytes = codes;
  parse_uri = λ t. if str_eq t "" then none else some (uri t);
  stoul = λ t. if str_eq t "0x10" then some 16 else none;
  spawns_reboot = λ n. false;
  now = 100;
  log_next = 4;
}

-- A connection that has to authenticate, and may write.
abbrev api : Api
api = record {
  connection = record {
    session_id = 1;
    readonly = false;
    password = "secret";
    is_authenticated = false;
  };
  manager = manager;
  log_options = 0;
  restarts = 0;
  reboots = 0;
}

abbrev entered : Api
entered = record api { connection = record api.connection { is_authenticated = true } }

abbrev watching : Api
watching = record api {
  connection = record api.connection { readonly = true; is_authenticated = true };
}

process_request-Unentered_example :
    let request = call_of "api_authorize" (object (field "psw" (text "secret") end)) in
    Kept (Unentered json library request api) (process_request json library request api)
process_request-Unentered_example =
    process_request-Unentered json library api
      (call_of "api_authorize" (object (field "psw" (text "secret") end))) refl

process_request-IsUnwritten_example :
    Kept
      (IsUnwritten library watching)
      (process_request json library (call_of "miner_shuffle" nothing) watching)
process_request-IsUnwritten_example =
    process_request-IsUnwritten json library watching (call_of "miner_shuffle" nothing) refl

miner_setscramblerinfo-Scrambles_example :
    let request = call_of "" (object (field "segmentwidth" (number 60) end)) in
    Kept
      (Scrambles json library entered)
      (miner_setscramblerinfo json library request new_response entered)
miner_setscramblerinfo-Scrambles_example =
    miner_setscramblerinfo-Scrambles json library entered
      (call_of "" (object (field "segmentwidth" (number 60) end))) new_response

passwords_match-same_example :
    (passwords_match library "secreT" "secret" ≡ true) ↔ (codes "secreT" ≡ codes "secret")
passwords_match-same_example =
    passwords_match-same library "secreT" "secret" (omega arith) (omega arith) (omega arith)
      (omega arith)

-- Work of a pool that leaves the nonces to the farm.
abbrev whole_job : WorkPackage
whole_job = record no_work { header = 99; epoch = some 5 }

abbrev working : Manager
working = record manager { farm = set_work_farm random farm whole_job }

farm-IsWellFormed : IsWellFormed farm
farm-IsWellFormed =
    unfold new_farm new_miner in
    record {
      indexed = (refl, (refl, tt));
      covered = omega arith;
      idle = λ h. absurd (ground (arith, h));
    }

get_miner_stat_detail-set_work_farm_example :
    (d : Detail) × (get_miner_stat_detail 100 working ≡ has_detail d)
    × ((x : DeviceDetail) × (get_elem? d.devices 1 ≡ some x)
        × ((told : Miner) × (get_elem? working.farm.miners 1 ≡ some told)
            × (x.segment_from ≡ to_hex told.work.start_nonce true 16)))
unfolding new_manager get_active_connection with_epoch new_farm new_miner paused
get_miner_stat_detail-set_work_farm_example =
    get_miner_stat_detail-set_work_farm random farm whole_job 5 100 working (uri "two") refl refl
      refl refl (set_work_farm-IsWellFormed random farm whole_job farm-IsWellFormed) 1
      (set_epoch (new_miner 1) 5) refl refl

abbrev receiver : Receiver
receiver = record {
  message = codes "{}";
  open_socket = true;
  reading = true;
  sent = [];
  disconnects = 0;
  api = api;
}

abbrev no_json : List ℕ → Option Json
no_json cs = none

abbrev untrimmed : List ℕ → List ℕ
untrimmed cs = cs

abbrev no_http : List ℕ → Option HttpRequest
no_http cs = none

server_steps-HasSessions_example :
    let v =
      server_steps
        (new_server (negsuc 3332))
        (starts true false ∷ accepts false ∷ accepts false ∷ []) in
    HasSessions v × All (λ x. x ≢ 1) (on_disconnected 1 v).sessions
server_steps-HasSessions_example =
    server_steps-HasSessions (negsuc 3332) (starts true false ∷ accepts false ∷ accepts false ∷ [])
      1

-- The right password is answered with neither a result nor an error.
password_taken :
    process_request json library
      (call_of "api_authorize" (object (field "psw" (text "secret") end)))
      api
    ≡ Outcome.returns entered (record new_response { id = some (uint_id 1) })
unfolding process_request with_fetched or_invalid new_manager
password_taken = refl

-- A width above 50 becomes 40.
width_clamped : (map clamp_width (9 ∷ 45 ∷ 50 ∷ 51 ∷ [])) ≡ 10 ∷ 45 ∷ 50 ∷ 40 ∷ []
unfolding clamp_width
width_clamped = refl
