-- ===== src/Api/Effects/Methods.antt =====
-- libapicore/ApiServer.cpp: what each method of an authenticated connection does to the state.
use firominer.Base.{[], ◌∷◌, ℕ, Bool, true, false, ◌≡◌, refl, Option, none, some, String, leb}
use firominer.Pool.{Manager, Outcome, done, threw, fault, Uri}
use firominer.Pool.Events.{Event, Setting, step, Reach, here, returns, throws}
use firominer.Farm.{Farm, shuffle}
use firominer.Farm.Calls.{call}
use firominer.Farm.Scrambler.{get_miner}
use firominer.Miner.{Miner}
use firominer.Api.{JsonCpp, Library, Api, Response, with_error, with_result, boolean}
use firominer.Api.{authorization_needed}
use firominer.Api.Details.{
  get_miner_stat1, get_miner_stat_detail, DetailEnd, has_detail, detail_throws,
}
use firominer.Api.Details.{detail_ends_process}
use firominer.Api.Methods.{
  answer_call, clamp_width, with_params, add_parsed, with_width, set_scrambler,
}
use firominer.Api.Methods.{given_nonce, parsed_nonce, pause_found, miner_addconnection}
use firominer.Api.Methods.{
  miner_setactiveconnection, miner_removeconnection, miner_setscramblerinfo,
}
use firominer.Api.Methods.{miner_pausegpu, miner_setverbosity}
use firominer.Api.Process.{
  answer_stat1, answer_detail, call_method, Method, getstat1, getstatdetail,
}
use firominer.Api.Process.{shuffles, ping, restarts, reboots, getconnections, addconnection}
use firominer.Api.Process.{
  setactiveconnection, removeconnection, getscramblerinfo, setscramblerinfo,
}
use firominer.Api.Process.{pausegpu, setverbosity, other}
use firominer.Api.Kept.{
  Kept, with_fetched-Kept, or_invalid_index-Kept, on_member-Kept, with_access-Kept,
}
use firominer.Api.Kept.{if-Kept}
use firominer.Getwork.Read.{starts_with}
use firominer.Api.Effects.{Effect, nothing, shuffles_nonces, writes}
use firominer.Farm.Calls
use firominer.Farm
use firominer.Api

event-Reach :
    (e : Setting) (m : Manager) (ev : Event) (m' : Manager) → step e m ev ≡ done m' → Reach e m m'
event-Reach e m ev m' h = returns ev here h

module _ (j : JsonCpp) (lib : Library) (request : j.Value) (s : Api)
    (authentic : s.connection.is_authenticated ≡ true) where
  open j use {Value}

  -- A call on the manager that is an event of it.
  answer_call-Effect :
      (ev : Event) (r : Response) (o : Outcome)
      → s.connection.readonly ≡ false
      → step lib.setting s.manager ev ≡ o
      → Kept (Effect j lib request s) (answer_call s r o)
  unfolding answer_call
  answer_call-Effect ev r (done m) w e = writes authentic w refl (returns ev here e)
  answer_call-Effect ev r (threw err m) w e = writes authentic w refl (throws ev here e)
  answer_call-Effect ev r fault w e = tt

  with_params-Effect :
      (r : Response) (k : Value → Response → Api.Outcome)
      → ((params : Value) (r' : Response) → Kept (Effect j lib request s) (k params r'))
      → Kept (Effect j lib request s) (with_params j lib request r s k)
  with_params-Effect r k = with_fetched-Kept (Effect j lib request s) s (nothing refl) _ k

  add_parsed-Effect :
      (r : Response) (text : String) (u : Option Uri)
      → s.connection.readonly ≡ false
      → Kept (Effect j lib request s) (add_parsed j lib s r text u)
  add_parsed-Effect r text none w = nothing refl
  add_parsed-Effect r text (some u) w =
      writes authentic w refl (unfold step in event-Reach _ _ (Event.adds u) _ refl)

  addconnection-Effect :
      (r : Response) → Kept (Effect j lib request s) (miner_addconnection j lib request r s)
  unfolding miner_addconnection
  addconnection-Effect r = with_access-Kept (Effect j lib request s) s (nothing refl) r _ λ w.
      with_params-Effect _ _ λ params r2.
        with_fetched-Kept (Effect j lib request s) s (nothing refl) _ _
          λ text r3. add_parsed-Effect r3 text (lib.parse_uri text) w

  setactiveconnection-Effect :
      (r : Response) → Kept (Effect j lib request s) (miner_setactiveconnection j lib request r s)
  unfolding miner_setactiveconnection step
  setactiveconnection-Effect r = with_access-Kept (Effect j lib request s) s (nothing refl) r _ λ w.
      with_params-Effect _ _ λ params r2.
        on_member-Kept (Effect j lib request s) s (nothing refl) (j.is_member params "index") _ _
          (or_invalid_index-Kept (Effect j lib request s) s (nothing refl) _ _
            λ idx r3. answer_call-Effect (Event.activates idx) r3 _ w refl)
          (or_invalid_index-Kept (Effect j lib request s) s (nothing refl) _ _
            λ text r3. answer_call-Effect (Event.activates_by_name text) r3 _ w refl)

  removeconnection-Effect :
      (r : Response) → Kept (Effect j lib request s) (miner_removeconnection j lib request r s)
  unfolding miner_removeconnection step
  removeconnection-Effect r = with_access-Kept (Effect j lib request s) s (nothing refl) r _ λ w.
      with_params-Effect _ _ λ params r2.
        with_fetched-Kept (Effect j lib request s) s (nothing refl) _ _
          λ idx r3. answer_call-Effect (Event.removes idx) r3 _ w refl

  set_scrambler-Effect :
      (nonce exp : ℕ) (r : Response)
      → s.connection.readonly ≡ false
      → Kept (Effect j lib request s) (set_scrambler j lib nonce exp r s)
  unfolding step call
  set_scrambler-Effect nonce exp r w = writes authentic w refl (
      returns (Event.calls_farm (Farm.Calls.sets_width (clamp_width exp)))
        (returns (Event.calls_farm (Farm.Calls.sets_scrambler nonce)) here refl) refl)

  with_width-Effect :
      (params : Value) (b : Bool) (nonce : ℕ) (r : Response)
      → s.connection.readonly ≡ false
      → Kept (Effect j lib request s) (with_width j lib params s b nonce r)
  with_width-Effect params b nonce r w =
      on_member-Kept (Effect j lib request s) s (nothing refl) (j.is_member params "segmentwidth") _
        _
        (with_fetched-Kept (Effect j lib request s) s (nothing refl) _ _
          λ exp r1. set_scrambler-Effect nonce exp r1 w)
        (if-Kept (Effect j lib request s) s (nothing refl) b _ _ (set_scrambler-Effect nonce _ r w)
          (nothing refl))

  parsed_nonce-Effect :
      (o : Option ℕ) (params : Value) (r : Response)
      → s.connection.readonly ≡ false
      → Kept (Effect j lib request s) (parsed_nonce j lib o r s (with_width j lib params s))
  parsed_nonce-Effect none params r w = nothing refl
  parsed_nonce-Effect (some n) params r w = with_width-Effect params true n r w

  given_nonce-Effect :
      (o : Option String) (old : ℕ) (params : Value) (r : Response)
      → s.connection.readonly ≡ false
      → Kept
          (Effect j lib request s)
          (given_nonce j lib o old params r s (with_width j lib params s))
  given_nonce-Effect none old params r w = nothing refl
  given_nonce-Effect (some text) old params r w =
      if-Kept (Effect j lib request s) s (nothing refl)
        (starts_with (b'0' ∷ b'x' ∷ []) (lib.bytes text)) _ _
        (parsed_nonce-Effect (lib.stoul text) params r w)
        (with_fetched-Kept (Effect j lib request s) s (nothing refl) _ _
          λ n r1. with_width-Effect params true n r1 w)

  setscramblerinfo-Effect :
      (r : Response) → Kept (Effect j lib request s) (miner_setscramblerinfo j lib request r s)
  unfolding miner_setscramblerinfo
  setscramblerinfo-Effect r = with_access-Kept (Effect j lib request s) s (nothing refl) r _ λ w.
      with_params-Effect _ _ λ params r2.
        on_member-Kept (Effect j lib request s) s (nothing refl)
          (j.is_member params "noncescrambler") _ _
          (given_nonce-Effect (j.as_string (j.member params "noncescrambler")) _ params r2 w)
          (with_width-Effect params false _ r2 w)

  pause_found-Effect :
      (pause : Bool) (idx : ℕ) (r : Response) (o : Option Miner)
      → s.connection.readonly ≡ false
      → Kept (Effect j lib request s) (pause_found j lib pause idx r s o)
  unfolding step call
  pause_found-Effect pause idx r none w = nothing refl
  pause_found-Effect true idx r (some m) w =
      writes authentic w refl (returns (Event.calls_farm (Farm.Calls.pauses_miner idx)) here refl)
  pause_found-Effect false idx r (some m) w =
      writes authentic w refl (returns (Event.calls_farm (Farm.Calls.resumes_miner idx)) here refl)

  pausegpu-Effect :
      (r : Response) → Kept (Effect j lib request s) (miner_pausegpu j lib request r s)
  unfolding miner_pausegpu
  pausegpu-Effect r = with_access-Kept (Effect j lib request s) s (nothing refl) r _ λ w.
      with_params-Effect _ _ λ params r2.
        with_fetched-Kept (Effect j lib request s) s (nothing refl) _ _ λ idx r3.
          with_fetched-Kept (Effect j lib request s) s (nothing refl) _ _
            λ pause r4. pause_found-Effect pause idx r4 (get_miner s.manager.farm idx) w

  setverbosity-Effect :
      (r : Response) → Kept (Effect j lib request s) (miner_setverbosity j lib request r s)
  unfolding miner_setverbosity
  setverbosity-Effect r = with_access-Kept (Effect j lib request s) s (nothing refl) r _ λ w.
      with_params-Effect _ _ λ params r2.
        with_fetched-Kept (Effect j lib request s) s (nothing refl) _ _ λ verbosity r3.
          if-Kept (Effect j lib request s) s (nothing refl) (leb lib.log_next verbosity) _ _
            (nothing refl) (writes authentic w refl here)

  stat1-Effect :
      (r : Response) (o : Option Api.Stat1) → Kept (Effect j lib request s) (answer_stat1 s r o)
  stat1-Effect r none = tt
  stat1-Effect r (some x) = nothing refl

  detail-Effect :
      (r : Response) (o : DetailEnd) → Kept (Effect j lib request s) (answer_detail s r o)
  detail-Effect r (has_detail x) = nothing refl
  detail-Effect r detail_throws = nothing refl
  detail-Effect r detail_ends_process = tt

  pub call_method-Effect :
      (method : Method) (r : Response)
      → Kept (Effect j lib request s) (call_method j lib method request r s)
  unfolding call_method
  call_method-Effect getstat1 r = stat1-Effect r (get_miner_stat1 s.manager)
  call_method-Effect getstatdetail r = detail-Effect r (get_miner_stat_detail lib.now s.manager)
  call_method-Effect shuffles r = shuffles_nonces authentic refl
  call_method-Effect ping r = nothing refl
  call_method-Effect restarts r =
      with_access-Kept (Effect j lib request s) s (nothing refl) r _
        λ w. writes authentic w refl here
  call_method-Effect reboots r =
      with_access-Kept (Effect j lib request s) s (nothing refl) r _
        λ w. writes authentic w refl here
  call_method-Effect getconnections r = nothing refl
  call_method-Effect addconnection r = addconnection-Effect r
  call_method-Effect setactiveconnection r = setactiveconnection-Effect r
  call_method-Effect removeconnection r = removeconnection-Effect r
  call_method-Effect getscramblerinfo r = nothing refl
  call_method-Effect setscramblerinfo r = setscramblerinfo-Effect r
  call_method-Effect pausegpu r = pausegpu-Effect r
  call_method-Effect setverbosity r = setverbosity-Effect r
  call_method-Effect other r = nothing refl
