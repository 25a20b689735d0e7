-- ===== src/Api/Effects/Requests.antt =====
-- libapicore/ApiServer.cpp: what `processRequest` does to the state.
use mathlib.Core.Option.{some-injective}
use firominer.Base.{minus, Bool, true, false, not, ◌||◌, ◌≡◌, refl, Option, none, some, String, sym}
use firominer.Base.{Bool-cases, inl, inr, arith, str_eq, if◌then◌else◌, subst}
use firominer.Api.{JsonCpp, Library, Api, Response, with_error, with_result, boolean}
use firominer.Api.{authorization_needed}
use firominer.Api.Values.{get_object, get_string, get_request_value, read_value, fetched}
use firominer.Api.Authorize.{passwords_match}
use firominer.Api.Process.{set_authenticated, call_method, api_authorize, check_authentication}
use firominer.Api.Process.{process_request, check_password, method_of, methods}
use firominer.Api.Kept.{Kept, with_fetched-Kept, or_invalid-Kept, if-Kept, with_fetched-Kept_eq}
use firominer.Api.Effects.{Effect, psw_of, nothing, denies, authorizes}
use firominer.Api.Effects.Methods.{call_method-Effect}
use firominer.Api

module _ (j : JsonCpp) where
  open j use {Value}

  read_value-fetched :
      {A : Type 0} (o : Option A) (r : Response) (a : A) (r' : Response)
      → read_value o r ≡ fetched true a r'
      → o ≡ some a
  read_value-fetched none r a r' e = absurd (ground (arith, e))
  read_value-fetched (some b) r a r' e = ground (arith, e)

  -- A value that has been fetched is that of the member.
  get_request_value-fetched :
      {A : Type 0} (is_type : Value → Bool) (read : Value → Option A) (name : String) (old : A)
      (v : Value) (r : Response) (a : A) (r' : Response)
      → get_request_value j is_type read name old v false r ≡ fetched true a r'
      → read (j.member v name) ≡ some a
  unfolding get_request_value
  get_request_value-fetched is_type read name old v r a r' e =
      ground (arith, e, read_value-fetched (read (j.member v name)) r a r')

  get_object-member :
      (name : String) (old v : Value) (r : Response) (a : Value) (r' : Response)
      → get_object j name old v false r ≡ fetched true a r'
      → j.member v name ≡ a
  unfolding get_object
  get_object-member name old v r a r' e =
      some-injective (j.member v name) a
        (get_request_value-fetched j.is_object (λ x. some x) name old v r a r' e)

  get_string-member :
      (name old : String) (v : Value) (r : Response) (a : String) (r' : Response)
      → get_string j name old v false r ≡ fetched true a r'
      → j.as_string (j.member v name) ≡ some a
  unfolding get_string
  get_string-member name old v r a r' e =
      get_request_value-fetched j.is_string j.as_string name old v r a r' e

module _ (j : JsonCpp) (lib : Library) (request : j.Value) (s : Api) where
  open j use {Value}

  check_password-Effect :
      (psw : String) (r : Response)
      → psw_of j request ≡ some psw
      → Kept (Effect j lib request s) (check_password j lib psw r (set_authenticated false s))
  check_password-Effect psw r sent =
      elim (Bool-cases (passwords_match lib psw s.connection.password)) [
        | inl e ↦ rw e (authorizes psw sent e refl)
        | inr e ↦ rw e (denies refl)
      ]

  authorize-Effect :
      (r : Response) → Kept (Effect j lib request s) (api_authorize j lib request r s)
  unfolding api_authorize
  authorize-Effect r =
      with_fetched-Kept_eq (Effect j lib request s) (set_authenticated false s) (denies refl) _ _
        λ params r1 e1.
          with_fetched-Kept_eq (Effect j lib request s) (set_authenticated false s) (denies refl) _
            _
            λ psw r2 e2. check_password-Effect psw r2 (
              subst (λ v. j.as_string (j.member v "psw") ≡ some psw)
                (sym (get_object-member j "params" j.null request r params r1 e1))
                (get_string-member j "psw" "" params r1 psw r2 e2))

  authentication-Effect :
      (method : String) (r : Response)
      → Kept (Effect j lib request s) (check_authentication j lib method request r s)
  unfolding check_authentication
  authentication-Effect method r = by_test s.connection.is_authenticated refl
    where
      asked : Api.Outcome
      asked =
          if str_eq method "api_authorize"
          then api_authorize j lib request r s
          else Api.Outcome.returns s (with_error (minus 403) authorization_needed r)

      denied : Kept (Effect j lib request s) asked
      denied =
          if-Kept (Effect j lib request s) s (nothing refl) (str_eq method "api_authorize") _ _
            (authorize-Effect r) (nothing refl)

      by_test :
          (b : Bool)
          → s.connection.is_authenticated ≡ b
          → Kept (Effect j lib request s) (
              if not b || str_eq method "api_authorize"
              then asked
              else call_method j lib (method_of methods method) request r s)
      by_test true e =
          if-Kept (Effect j lib request s) s (nothing refl) (str_eq method "api_authorize") _ _
            denied (call_method-Effect j lib request s e (method_of methods method) r)
      by_test false e = denied

  pub process_request-Effect : Kept (Effect j lib request s) (process_request j lib request s)
  unfolding process_request
  process_request-Effect = with_fetched-Kept (Effect j lib request s) s (nothing refl) _ _ λ _ r1.
      or_invalid-Kept (Effect j lib request s) s (nothing refl) _ _ λ jsonrpc r2.
        if-Kept (Effect j lib request s) s (nothing refl) (str_eq jsonrpc "2.0") _ _
          (or_invalid-Kept (Effect j lib request s) s (nothing refl) _ _
            λ method r3. authentication-Effect method r3)
          (nothing refl)
