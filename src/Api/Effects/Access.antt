-- ===== src/Api/Effects/Access.antt =====
-- libapicore/ApiServer.cpp: what a request cannot do.
use firominer.Base.{Bool, some, true, false, ◌≡◌, ◌⊎◌, inl, inr, refl, arith, String}
use firominer.Farm.{shuffle}
use firominer.Pool.Events.{returns}
use firominer.Api.{
  JsonCpp, Library, Api, Outcome, returns as returned, throws as thrown, ends_process,
}
use firominer.Api.Authorize.{copy_of, max_length}
use firominer.Api.Authorize.Compare.{passwords_match_iff}
use firominer.Api.Methods.{with_farm}
use firominer.Api.Process.{process_request, set_authenticated}
use firominer.Api.Kept.{Kept}
use firominer.Api.Effects.{Effect, nothing, denies, authorizes, shuffles_nonces, writes, psw_of}
use firominer.Api.Effects.Requests.{process_request-Effect}
use firominer.Farm.Calls
use firominer.Farm

Kept-map : (P Q : Api → Type 0) (f : (s : Api) → P s → Q s) (o : Outcome) → Kept P o → Kept Q o
Kept-map P Q f (returned s r) h = f s h
Kept-map P Q f (thrown s) h = f s h
Kept-map P Q f ends_process h = h

-- What a request leaves of a connection that is not authenticated: all as it was; or it is
-- authenticated, and the password in the request has the copy of the configured one.
abbrev pub Unentered : (j : JsonCpp) → Library → j.Value → Api → Api → Type 0
Unentered j lib request s s' =
    (s' ≡ s)
    ⊎ ((s' ≡ set_authenticated true s)
        × ((psw : String) × (psw_of j request ≡ some psw)
            × (copy_of max_length (lib.bytes psw)
                ≡ copy_of max_length (lib.bytes s.connection.password))))

Effect-Unentered :
    (j : JsonCpp) (lib : Library) (request : j.Value) (s s' : Api)
    → s.connection.is_authenticated ≡ false
    → Effect j lib request s s'
    → Unentered j lib request s s'
Effect-Unentered j lib request s s' u (nothing e) = inl e
Effect-Unentered j lib request s s' u (denies e) = inl (ground (arith, e, u))
Effect-Unentered j lib request s s' u (authorizes psw sent p e) =
    inr (e, (psw, sent, (passwords_match_iff lib psw s.connection.password).0 p))
Effect-Unentered j lib request s s' u (shuffles_nonces a e) = absurd (ground (arith, u, a))
Effect-Unentered j lib request s s' u (writes a w c r) = absurd (ground (arith, u, a))

-- Without authentication a request that returns or throws changes nothing: not the manager, the
-- farm, the log nor the pending restarts; but a request with a password that is the configured one
-- in its first 500 bytes makes the connection authenticated.
pub process_request-Unentered :
    (j : JsonCpp) (lib : Library) (s : Api) (request : j.Value)
    → s.connection.is_authenticated ≡ false
    → Kept (Unentered j lib request s) (process_request j lib request s)
process_request-Unentered j lib s request u =
    Kept-map (Effect j lib request s) _ (λ s'. Effect-Unentered j lib request s s' u) _
      (process_request-Effect j lib request s)

-- What a request leaves through a read-only connection.
pub record IsUnwritten (lib : Library) (s s' : Api) : Type 0 where
  pub manager :
      (s'.manager ≡ s.manager)
      ⊎ (s'.manager ≡ (with_farm s (shuffle lib.setting.random s.manager.farm)).manager)
  pub log_options : s'.log_options ≡ s.log_options
  pub restarts : s'.restarts ≡ s.restarts
  pub reboots : s'.reboots ≡ s.reboots
  pub readonly : s'.connection.readonly ≡ true

authenticated-IsUnwritten :
    (lib : Library) (s : Api) (b : Bool)
    → s.connection.readonly ≡ true
    → IsUnwritten lib s (set_authenticated b s)
authenticated-IsUnwritten lib s b h = record {
  manager = inl refl;
  log_options = refl;
  restarts = refl;
  reboots = refl;
  readonly = h;
}

shuffled-IsUnwritten :
    (lib : Library) (s : Api)
    → s.connection.readonly ≡ true
    → IsUnwritten lib s (with_farm s (shuffle lib.setting.random s.manager.farm))
shuffled-IsUnwritten lib s h = record {
  manager = inr refl;
  log_options = refl;
  restarts = refl;
  reboots = refl;
  readonly = h;
}

Effect-IsUnwritten :
    (j : JsonCpp) (lib : Library) (request : j.Value) (s s' : Api)
    → s.connection.readonly ≡ true
    → Effect j lib request s s'
    → IsUnwritten lib s s'
Effect-IsUnwritten j lib request s s' h (nothing e) =
    rw e (authenticated-IsUnwritten lib s s.connection.is_authenticated h)
Effect-IsUnwritten j lib request s s' h (denies e) = rw e (authenticated-IsUnwritten lib s false h)
Effect-IsUnwritten j lib request s s' h (authorizes psw sent p e) =
    rw e (authenticated-IsUnwritten lib s true h)
Effect-IsUnwritten j lib request s s' h (shuffles_nonces a e) = rw e (shuffled-IsUnwritten lib s h)
Effect-IsUnwritten j lib request s s' h (writes a w c r) = absurd (ground (arith, h, w))

-- Through a read-only connection a request that returns or throws leaves the manager and its farm as
-- they are, or shuffles the nonces of the farm, which `miner_shuffle` does with no check of the
-- access; it changes neither the log nor the pending restarts and reboots, and stays read-only.
pub process_request-IsUnwritten :
    (j : JsonCpp) (lib : Library) (s : Api) (request : j.Value)
    → s.connection.readonly ≡ true
    → Kept (IsUnwritten lib s) (process_request j lib request s)
process_request-IsUnwritten j lib s request h =
    Kept-map (Effect j lib request s) _ (λ s'. Effect-IsUnwritten j lib request s s' h) _
      (process_request-Effect j lib request s)
