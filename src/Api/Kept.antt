-- ===== src/Api/Kept.antt =====
-- libapicore/ApiServer.cpp: what holds of the state that a request leaves, however it ends.
use firominer.Base.{Bool, true, false, ◌≡◌, Option, none, some, if◌then◌else◌, refl}
use firominer.Api.{Api, Response, Outcome, returns, throws, ends_process}
use firominer.Api.Values.{Fetched, fetched, fetch_throws, check_api_write_access}
use firominer.Api.Methods.{with_fetched, with_access, on_member, or_invalid_index, if_allowed}
use firominer.Api.Process.{or_invalid}

-- What holds of the state after a request that returns or throws.
abbrev pub Kept : (Api → Type 0) → Outcome → Type 0
Kept P (returns s r) = P s
Kept P (throws s) = P s
Kept P ends_process = Unit {0}

module _ (P : Api → Type 0) (s : Api) (h : P s) where
  pub with_fetched-Kept :
      {A : Type 0} (x : Fetched A) (k : A → Response → Outcome)
      → ((a : A) (r : Response) → Kept P (k a r))
      → Kept P (with_fetched x s k)
  unfolding with_fetched
  with_fetched-Kept (fetched true a r) k keep = keep a r
  with_fetched-Kept (fetched false a r) k keep = h
  with_fetched-Kept fetch_throws k keep = h

  -- The same, where what follows needs that the value has been fetched.
  pub with_fetched-Kept_eq :
      {A : Type 0} (x : Fetched A) (k : A → Response → Outcome)
      → ((a : A) (r : Response) → x ≡ fetched true a r → Kept P (k a r))
      → Kept P (with_fetched x s k)
  unfolding with_fetched
  with_fetched-Kept_eq (fetched true a r) k keep = keep a r refl
  with_fetched-Kept_eq (fetched false a r) k keep = h
  with_fetched-Kept_eq fetch_throws k keep = h

  pub or_invalid-Kept :
      {A : Type 0} (x : Fetched A) (k : A → Response → Outcome)
      → ((a : A) (r : Response) → Kept P (k a r))
      → Kept P (or_invalid x s k)
  unfolding or_invalid
  or_invalid-Kept (fetched true a r) k keep = keep a r
  or_invalid-Kept (fetched false a r) k keep = h
  or_invalid-Kept fetch_throws k keep = h

  pub or_invalid_index-Kept :
      {A : Type 0} (x : Fetched A) (k : A → Response → Outcome)
      → ((a : A) (r : Response) → Kept P (k a r))
      → Kept P (or_invalid_index x s k)
  unfolding or_invalid_index
  or_invalid_index-Kept (fetched true a r) k keep = keep a r
  or_invalid_index-Kept (fetched false a r) k keep = h
  or_invalid_index-Kept fetch_throws k keep = h

  pub on_member-Kept :
      (b : Option Bool) (present absent : Outcome)
      → Kept P present
      → Kept P absent
      → Kept P (on_member b s present absent)
  unfolding on_member
  on_member-Kept none present absent p a = h
  on_member-Kept (some true) present absent p a = p
  on_member-Kept (some false) present absent p a = a

  -- The write access is given on a connection that is not read-only.
  pub with_access-Kept :
      (r : Response) (k : Response → Outcome)
      → (s.connection.readonly ≡ false → Kept P (k r))
      → Kept P (with_access s r k)
  unfolding with_access check_api_write_access
  with_access-Kept r k keep = by_test s.connection.readonly refl
    where
      by_test :
          (b : Bool)
          → s.connection.readonly ≡ b
          → Kept P (if_allowed (check_api_write_access b r) s k)
      by_test true e = h
      by_test false e = keep e

  pub if-Kept : (b : Bool) (x y : Outcome) → Kept P x → Kept P y → Kept P (if b then x else y)
  if-Kept true x y p q = p
  if-Kept false x y p q = q
