-- ===== src/Api/Answers.antt =====
-- libapicore/ApiServer.cpp: the form of the response to a request.
pub mod Rules
pub mod Methods
pub mod Forms
use firominer.Base.{
  ℕ, ℤ, minus, Bool, true, false, not, ◌||◌, ◌≡◌, ◌≢◌, refl, arith, Option, none, some,
}
use firominer.Base.{String, Bool-cases, inl, inr, if◌then◌else◌, str_eq, leb, [], ◌∷◌}
use firominer.Getwork.Read.{starts_with}
use firominer.Miner.{Miner}
use firominer.Pool.{Uri}
use firominer.Farm.Scrambler.{get_miner}
use firominer.Api.{JsonCpp, Library, Api, Response, Result, ErrorText, Outcome, returns, throws}
use firominer.Api.{ends_process, bad_value, new_response, with_error, with_result, boolean}
use firominer.Api.{authorization_needed, Stat1}
use firominer.Api.Values.{Fetched, fetched, fetch_throws, get_request_value, get_uint, get_object}
use firominer.Api.Values.{get_bool, get_string, get_uint64, parse_request_id, if_member, parse_id}
use firominer.Api.Values.{check_api_write_access, absent, read_value, read_uint64, string_id_of}
use firominer.Api.Authorize.{passwords_match}
use firominer.Api.Details.{
  get_miner_stat1, get_miner_stat_detail, DetailEnd, has_detail, detail_throws,
}
use firominer.Api.Details.{detail_ends_process}
use firominer.Api.Methods.{with_fetched, with_access, on_member, answer_call, or_invalid_index}
use firominer.Api.Methods.{
  if_allowed, with_params, add_parsed, with_width, set_scrambler, given_nonce,
}
use firominer.Api.Methods.{
  parsed_nonce, pause_found, miner_addconnection, miner_setactiveconnection,
}
use firominer.Api.Methods.{miner_removeconnection, miner_setscramblerinfo, miner_pausegpu}
use firominer.Api.Methods.{miner_setverbosity}
use firominer.Api.Process.{or_invalid, set_authenticated, answer_stat1, answer_detail, call_method}
use firominer.Api.Process.{api_authorize, check_authentication, process_request, check_password}
use firominer.Api.Process.{
  method_of, methods, Method, getstat1, getstatdetail, shuffles, ping, restarts,
}
use firominer.Api.Process.{
  reboots, getconnections, addconnection, setactiveconnection, removeconnection,
}
use firominer.Api.Process.{getscramblerinfo, setscramblerinfo, pausegpu, setverbosity, other}
use firominer.Pool
use firominer.Api

-- The response has an id, and nothing else yet.
pub record IsBlank (r : Response) : Type 0 where
  pub id : r.id ≢ none
  pub result : r.result ≡ none
  pub error_code : r.error_code ≡ none
  pub error_message : r.error_message ≡ none

-- The response has an id and an error. The error has its code and its message; or a number in the
-- request could not be converted, and it has a message alone.
pub data Fails (r : Response) : Type 0 where
  coded :
      (code : ℤ) (text : ErrorText)
      → r.id ≢ none
      → r.result ≡ none
      → r.error_code ≡ some code
      → r.error_message ≡ some text
      → Fails r
  uncoded :
      (name : String)
      → r.id ≢ none
      → r.result ≡ none
      → r.error_code ≡ none
      → r.error_message ≡ some (bad_value name)
      → Fails r

-- The response has an id, and a result with no error, or an error with no result; or it has neither,
-- and the connection has been authenticated.
pub data Answers (s : Api) (r : Response) : Type 0 where
  succeeds :
      (x : Result)
      → r.id ≢ none
      → r.result ≡ some x
      → r.error_code ≡ none
      → r.error_message ≡ none
      → Answers s r
  fails : Fails r → Answers s r
  grants : IsBlank r → s.connection.is_authenticated ≡ true → Answers s r

abbrev pub Answered : Outcome → Type 0
Answered (returns s r) = Answers s r
Answered (throws s) = Unit {0}
Answered ends_process = Unit {0}

-- What a value that is fetched leaves of a blank response.
abbrev pub Sane : {A : Type 0} → Fetched A → Type 0
Sane (fetched true a r) = IsBlank r
Sane (fetched false a r) = Fails r
Sane fetch_throws = Unit {0}

pub with_error-Fails :
    (code : ℤ) (text : ErrorText) (r : Response)
    → r.id ≢ none
    → r.result ≡ none
    → Fails (with_error code text r)
with_error-Fails code text r i h = coded code text i h refl refl

pub with_result-Answers :
    (s : Api) (x : Result) (r : Response) → IsBlank r → Answers s (with_result x r)
with_result-Answers s x r b = succeeds x b.id refl b.error_code b.error_message

pub error-Answers :
    (s : Api) (code : ℤ) (text : ErrorText) (r : Response)
    → IsBlank r
    → Answers s (with_error code text r)
error-Answers s code text r b = fails (with_error-Fails code text r b.id b.result)

pub overwritten-Answers :
    (s : Api) (code : ℤ) (text : ErrorText) (r : Response)
    → Fails r
    → Answers s (with_error code text r)
overwritten-Answers s code text r (coded c t i h e m) = fails (with_error-Fails code text r i h)
overwritten-Answers s code text r (uncoded n i h e m) = fails (with_error-Fails code text r i h)

module _ (j : JsonCpp) where
  open j use {Value}

  if_member-Sane :
      {A : Type 0} (o : Option Bool) (x y : Fetched A) → Sane x → Sane y → Sane (if_member j o x y)
  if_member-Sane none x y p q = tt
  if_member-Sane (some true) x y p q = p
  if_member-Sane (some false) x y p q = q

  if-Sane : {A : Type 0} (b : Bool) (x y : Fetched A) → Sane x → Sane y → Sane (if b then x else y)
  if-Sane true x y p q = p
  if-Sane false x y p q = q

  absent-Sane :
      {A : Type 0} (name : String) (old : A) (r : Response)
      → IsBlank r
      → Sane (absent j name old false r)
  absent-Sane name old r b = with_error-Fails _ _ r b.id b.result

  read-Sane : {A : Type 0} (o : Option A) (r : Response) → IsBlank r → Sane (read_value o r)
  read-Sane none r b = tt
  read-Sane (some a) r b = b

  pub get_request_value-Sane :
      {A : Type 0} (is_type : Value → Bool) (read : Value → Option A) (name : String) (old : A)
      (request : Value) (r : Response)
      → IsBlank r
      → Sane (get_request_value j is_type read name old request false r)
  unfolding get_request_value
  get_request_value-Sane is_type read name old request r b =
      if_member-Sane (j.is_member request name) _ _
        (if-Sane (not (is_type (j.member request name))) _ _ (with_error-Fails _ _ r b.id b.result)
          (if-Sane (j.is_empty (j.member request name)) _ _ (with_error-Fails _ _ r b.id b.result)
            (read-Sane (read (j.member request name)) r b)))
        (absent-Sane name old r b)

  read_uint64-Sane :
      (name : String) (old : ℕ) (o : Option ℕ) (r : Response)
      → IsBlank r
      → Sane (read_uint64 name old o r)
  read_uint64-Sane name old none r b = uncoded name b.id b.result b.error_code refl
  read_uint64-Sane name old (some a) r b = b

  pub get_uint64-Sane :
      (name : String) (old : ℕ) (request : Value) (r : Response)
      → IsBlank r
      → Sane (get_uint64 j name old request false r)
  unfolding get_uint64
  get_uint64-Sane name old request r b =
      if_member-Sane (j.is_member request name) _ _
        (if-Sane (j.is_empty (j.member request name)) _ _ (with_error-Fails _ _ r b.id b.result)
          (read_uint64-Sane name old (j.as_uint64 (j.member request name)) r b))
        (absent-Sane name old r b)

  identified : (id : Api.RequestId) → IsBlank (record new_response { id = some id })
  identified id = record {
    id = λ e. absurd (ground (arith, e));
    result = refl;
    error_code = refl;
    error_message = refl;
  }

  string_id_of-Sane : (o : Option String) → Sane (string_id_of o new_response)
  string_id_of-Sane none = tt
  string_id_of-Sane (some t) = identified (Api.string_id t)

  unidentified :
      (text : ErrorText)
      → Fails (with_error (minus 32600) text (record new_response { id = some Api.null_id }))
  unidentified text =
      with_error-Fails _ _ (record new_response { id = some Api.null_id })
        (identified Api.null_id).id refl

  pub parse_request_id-Sane : (request : Value) → Sane (parse_request_id j request new_response)
  unfolding parse_request_id
  parse_request_id-Sane request =
      let v = j.member request "id" in
      if_member-Sane (j.is_member request "id") _ _
        (if-Sane (j.is_empty v) _ _ (unidentified _) (
          if-Sane (j.is_uint v) _ _ (identified _)
            (if-Sane (j.is_string v) _ _ (string_id_of-Sane (j.as_string v)) (unidentified _))))
        (unidentified _)
