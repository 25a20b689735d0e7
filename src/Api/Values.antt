-- ===== src/Api/Values.antt =====
-- libapicore/ApiServer.cpp: `getRequestValue`, `checkApiWriteAccess` and `parseRequestId`.
use firominer.Base.{ℕ, minus, Bool, true, false, not, Option, none, some, String, if◌then◌else◌}
use firominer.Api.{
  JsonCpp, Response, with_error, null_id, uint_id, string_id, missing, invalid_type,
}
use firominer.Api.{empty, bad_value, missing_id, invalid_id, method_not_available}

-- What `getRequestValue` returns, the variable it was given, and the response; or it throws.
pub data Fetched (A : Type 0) : Type 0 where
  fetched : Bool → A → Response → Fetched A
  fetch_throws : Fetched A

-- The value as it is read, which may throw.
abbrev pub read_value : {A : Type 0} → Option A → Response → Fetched A
read_value none r = fetch_throws
read_value (some a) r = fetched true a r

-- Where the conversion throws, the code of the error goes into the request, and only the message
-- into the response.
abbrev pub read_uint64 : String → ℕ → Option ℕ → Response → Fetched ℕ
read_uint64 name old none r = fetched false old (record r { error_message = some (bad_value name) })
read_uint64 name old (some a) r = fetched true a r

abbrev pub string_id_of : Option String → Response → Fetched (Unit {0})
string_id_of none r = fetch_throws
string_id_of (some s) r = fetched true tt (record r { id = some (string_id s) })

module _ (j : JsonCpp) where
  open j use {Value}

  -- A member is there, or it is not; the question throws for a value that has no members.
  abbrev pub if_member : {A : Type 0} → Option Bool → Fetched A → Fetched A → Fetched A
  if_member none present absent = fetch_throws
  if_member (some true) present absent = present
  if_member (some false) present absent = absent

  abbrev pub absent : {A : Type 0} → String → A → Bool → Response → Fetched A
  absent name old optional r =
      fetched optional old (if optional then r else with_error (minus 32602) (missing name) r)

  -- The overloads whose type can be tested.
  unfoldable pub get_request_value :
      {A : Type 0}
      → (Value → Bool)
      → (Value → Option A)
      → String
      → A
      → Value
      → Bool
      → Response
      → Fetched A
  get_request_value is_type read name old request optional r =
      let v = j.member request name in
      if_member (j.is_member request name)
        (if not (is_type v)
          then fetched false old (with_error (minus 32602) (invalid_type name) r)
          else if j.is_empty v
          then fetched false old (with_error (minus 32602) (empty name) r)
          else read_value (read v) r)
        (absent name old optional r)

  unfoldable pub get_bool : String → Bool → Value → Bool → Response → Fetched Bool
  unfolding get_request_value
  get_bool = get_request_value j.is_bool (λ v. some (j.as_bool v))

  unfoldable pub get_uint : String → ℕ → Value → Bool → Response → Fetched ℕ
  unfolding get_request_value
  get_uint = get_request_value j.is_uint (λ v. some (j.as_uint v))

  unfoldable pub get_object : String → Value → Value → Bool → Response → Fetched Value
  unfolding get_request_value
  get_object = get_request_value j.is_object (λ v. some v)

  unfoldable pub get_string : String → String → Value → Bool → Response → Fetched String
  unfolding get_request_value
  get_string = get_request_value j.is_string j.as_string

  -- The overload for `uint64_t`.
  unfoldable pub get_uint64 : String → ℕ → Value → Bool → Response → Fetched ℕ
  get_uint64 name old request optional r =
      let v = j.member request name in
      if_member (j.is_member request name)
        (if j.is_empty v
          then fetched false old (with_error (minus 32602) (empty name) r)
          else read_uint64 name old (j.as_uint64 v) r)
        (absent name old optional r)

  -- `parseRequestId`.
  abbrev pub parse_id : Value → Response → Fetched (Unit {0})
  parse_id v r =
      if j.is_empty v
      then fetched false tt (with_error (minus 32600) missing_id (record r { id = some null_id }))
      else if j.is_uint v
      then fetched true tt (record r { id = some (uint_id (j.as_uint v)) })
      else if j.is_string v
      then string_id_of (j.as_string v) r
      else fetched false tt (with_error (minus 32600) invalid_id (record r { id = some null_id }))

  unfoldable pub parse_request_id : Value → Response → Fetched (Unit {0})
  parse_request_id request r =
      if_member (j.is_member request "id") (parse_id (j.member request "id") r)
        (fetched false tt (with_error (minus 32600) missing_id (record r { id = some null_id })))

unfoldable pub check_api_write_access : Bool → Response → Bool × Response
check_api_write_access readonly r =
    if readonly then (false, with_error (minus 32601) method_not_available r) else (true, r)
