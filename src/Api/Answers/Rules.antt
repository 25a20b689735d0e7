-- ===== src/Api/Answers/Rules.antt =====
-- libapicore/ApiServer.cpp: responses through the control flow of `processRequest`.
use firominer.Base.{Bool, true, false, Option, none, some, if◌then◌else◌}
use firominer.Pool.{Uri}
use firominer.Api.{Api, Response, Outcome}
use firominer.Api.Values.{Fetched, fetched, fetch_throws, check_api_write_access, absent}
use firominer.Api.Methods.{with_fetched, with_access, on_member, answer_call, or_invalid_index}
use firominer.Api.Methods.{if_allowed}
use firominer.Api.Process.{or_invalid}
use firominer.Api.Answers.{IsBlank, Answered, Sane, with_result-Answers, error-Answers}
use firominer.Api.Answers.{overwritten-Answers, fails}
use firominer.Pool

module _ (s : Api) where
  pub with_fetched-Answered :
      {A : Type 0} (x : Fetched A) (k : A → Response → Outcome)
      → Sane x
      → ((a : A) (r : Response) → IsBlank r → Answered (k a r))
      → Answered (with_fetched x s k)
  unfolding with_fetched
  with_fetched-Answered (fetched true a r) k h f = f a r h
  with_fetched-Answered (fetched false a r) k h f = fails h
  with_fetched-Answered fetch_throws k h f = tt

  pub or_invalid-Answered :
      {A : Type 0} (x : Fetched A) (k : A → Response → Outcome)
      → Sane x
      → ((a : A) (r : Response) → IsBlank r → Answered (k a r))
      → Answered (or_invalid x s k)
  unfolding or_invalid
  or_invalid-Answered (fetched true a r) k h f = f a r h
  or_invalid-Answered (fetched false a r) k h f = overwritten-Answers s _ _ r h
  or_invalid-Answered fetch_throws k h f = tt

  pub or_invalid_index-Answered :
      {A : Type 0} (x : Fetched A) (k : A → Response → Outcome)
      → Sane x
      → ((a : A) (r : Response) → IsBlank r → Answered (k a r))
      → Answered (or_invalid_index x s k)
  unfolding or_invalid_index
  or_invalid_index-Answered (fetched true a r) k h f = f a r h
  or_invalid_index-Answered (fetched false a r) k h f = overwritten-Answers s _ _ r h
  or_invalid_index-Answered fetch_throws k h f = tt

  pub on_member-Answered :
      (b : Option Bool) (present absent : Outcome)
      → Answered present
      → Answered absent
      → Answered (on_member b s present absent)
  unfolding on_member
  on_member-Answered none present absent p a = tt
  on_member-Answered (some true) present absent p a = p
  on_member-Answered (some false) present absent p a = a

  pub with_access-Answered :
      (r : Response) (k : Response → Outcome)
      → IsBlank r
      → Answered (k r)
      → Answered (with_access s r k)
  unfolding with_access check_api_write_access
  with_access-Answered r k b h = by_test s.connection.readonly
    where
      by_test : (x : Bool) → Answered (if_allowed (check_api_write_access x r) s k)
      by_test true = error-Answers s _ _ r b
      by_test false = h

  pub if-Answered :
      (b : Bool) (x y : Outcome) → Answered x → Answered y → Answered (if b then x else y)
  if-Answered true x y p q = p
  if-Answered false x y p q = q

  pub answer_call-Answered :
      (r : Response) (o : Pool.Outcome) → IsBlank r → Answered (answer_call s r o)
  unfolding answer_call
  answer_call-Answered r (Pool.Outcome.done m) b = with_result-Answers _ _ r b
  answer_call-Answered r (Pool.Outcome.threw err m) b = error-Answers _ _ _ r b
  answer_call-Answered r Pool.Outcome.fault b = tt
