-- ===== src/Api/Answers/Methods.antt =====
-- libapicore/ApiServer.cpp: each method answers with a result or with an error.
use firominer.Base.{ℕ, Bool, true, false, Option, none, some, String, leb, [], ◌∷◌}
use firominer.Getwork.Read.{starts_with}
use firominer.Miner.{Miner}
use firominer.Pool.{Uri}
use firominer.Farm.Scrambler.{get_miner}
use firominer.Api.{JsonCpp, Library, Api, Response, Outcome, Stat1}
use firominer.Api.Values.{get_uint, get_object, get_bool, get_string}
use firominer.Api.Details.{
  get_miner_stat1, get_miner_stat_detail, DetailEnd, has_detail, detail_throws,
}
use firominer.Api.Details.{detail_ends_process}
use firominer.Api.Methods.{
  with_params, add_parsed, with_width, given_nonce, parsed_nonce, pause_found,
}
use firominer.Api.Methods.{miner_addconnection, miner_setactiveconnection, miner_removeconnection}
use firominer.Api.Methods.{miner_setscramblerinfo, miner_pausegpu, miner_setverbosity}
use firominer.Api.Process.{
  answer_stat1, answer_detail, call_method, Method, getstat1, getstatdetail,
}
use firominer.Api.Process.{shuffles, ping, restarts, reboots, getconnections, addconnection}
use firominer.Api.Process.{
  setactiveconnection, removeconnection, getscramblerinfo, setscramblerinfo,
}
use firominer.Api.Process.{pausegpu, setverbosity, other}
use firominer.Api.Answers.{IsBlank, Answered, Sane, with_result-Answers, error-Answers}
use firominer.Api.Answers.{get_request_value-Sane, get_uint64-Sane}
use firominer.Api.Answers.Rules.{
  with_fetched-Answered, or_invalid_index-Answered, on_member-Answered,
}
use firominer.Api.Answers.Rules.{with_access-Answered, if-Answered, answer_call-Answered}

module _ (j : JsonCpp) (lib : Library) (s : Api) where
  open j use {Value}

  uint-Sane :
      (name : String) (v : Value) (r : Response) → IsBlank r → Sane (get_uint j name 0 v false r)
  unfolding get_uint
  uint-Sane name v r b = get_request_value-Sane j j.is_uint (λ v'. some (j.as_uint v')) name 0 v r b

  pub string-Sane :
      (name : String) (v : Value) (r : Response) → IsBlank r → Sane (get_string j name "" v false r)
  unfolding get_string
  string-Sane name v r b = get_request_value-Sane j j.is_string j.as_string name "" v r b

  pub with_params-Answered :
      (s' : Api) (request : Value) (r : Response) (k : Value → Response → Outcome)
      → IsBlank r
      → ((params : Value) (r' : Response) → IsBlank r' → Answered (k params r'))
      → Answered (with_params j lib request r s' k)
  unfolding get_object
  with_params-Answered s' request r k b =
      with_fetched-Answered s' _ k
        (get_request_value-Sane j j.is_object (λ v. some v) "params" j.null request r b)

  add_parsed-Answered :
      (r : Response) (text : String) (u : Option Uri)
      → IsBlank r
      → Answered (add_parsed j lib s r text u)
  add_parsed-Answered r text none b = error-Answers s _ _ r b
  add_parsed-Answered r text (some u) b = with_result-Answers _ _ r b

  addconnection-Answered :
      (request : Value) (r : Response)
      → IsBlank r
      → Answered (miner_addconnection j lib request r s)
  unfolding miner_addconnection
  addconnection-Answered request r b = with_access-Answered s r _ b (
      with_params-Answered s request _ _ b λ params r2 b2.
        with_fetched-Answered s _ _ (string-Sane "uri" params r2 b2)
          λ text r3 b3. add_parsed-Answered r3 text (lib.parse_uri text) b3)

  setactiveconnection-Answered :
      (request : Value) (r : Response)
      → IsBlank r
      → Answered (miner_setactiveconnection j lib request r s)
  unfolding miner_setactiveconnection
  setactiveconnection-Answered request r b = with_access-Answered s r _ b (
      with_params-Answered s request _ _ b λ params r2 b2.
        on_member-Answered s (j.is_member params "index") _ _
          (or_invalid_index-Answered s _ _ (uint-Sane "index" params r2 b2)
            λ idx r3 b3. answer_call-Answered s r3 _ b3)
          (or_invalid_index-Answered s _ _ (string-Sane "URI" params r2 b2)
            λ text r3 b3. answer_call-Answered s r3 _ b3))

  removeconnection-Answered :
      (request : Value) (r : Response)
      → IsBlank r
      → Answered (miner_removeconnection j lib request r s)
  unfolding miner_removeconnection
  removeconnection-Answered request r b = with_access-Answered s r _ b (
      with_params-Answered s request _ _ b λ params r2 b2.
        with_fetched-Answered s _ _ (uint-Sane "index" params r2 b2)
          λ idx r3 b3. answer_call-Answered s r3 _ b3)

  with_width-Answered :
      (params : Value) (any_value_provided : Bool) (nonce : ℕ) (r : Response)
      → IsBlank r
      → Answered (with_width j lib params s any_value_provided nonce r)
  unfolding get_uint
  with_width-Answered params any_value_provided nonce r b =
      on_member-Answered s (j.is_member params "segmentwidth") _ _
        (with_fetched-Answered s _ _
          (get_request_value-Sane j j.is_uint (λ v'. some (j.as_uint v')) "segmentwidth" _ params r
            b)
          λ exp r1 b1. with_result-Answers _ _ r1 b1)
        (if-Answered s any_value_provided _ _ (with_result-Answers _ _ r b)
          (error-Answers s _ _ r b))

  parsed_nonce-Answered :
      (o : Option ℕ) (params : Value) (r : Response)
      → IsBlank r
      → Answered (parsed_nonce j lib o r s (with_width j lib params s))
  parsed_nonce-Answered none params r b = error-Answers s _ _ r b
  parsed_nonce-Answered (some n) params r b = with_width-Answered params true n r b

  given_nonce-Answered :
      (o : Option String) (old : ℕ) (params : Value) (r : Response)
      → IsBlank r
      → Answered (given_nonce j lib o old params r s (with_width j lib params s))
  given_nonce-Answered none old params r b = tt
  given_nonce-Answered (some text) old params r b =
      if-Answered s (starts_with (b'0' ∷ b'x' ∷ []) (lib.bytes text)) _ _
        (parsed_nonce-Answered (lib.stoul text) params r b)
        (with_fetched-Answered s _ _ (get_uint64-Sane j "noncescrambler" old params r b)
          λ n r1 b1. with_width-Answered params true n r1 b1)

  setscramblerinfo-Answered :
      (request : Value) (r : Response)
      → IsBlank r
      → Answered (miner_setscramblerinfo j lib request r s)
  unfolding miner_setscramblerinfo
  setscramblerinfo-Answered request r b = with_access-Answered s r _ b (
      with_params-Answered s request _ _ b λ params r2 b2.
        on_member-Answered s (j.is_member params "noncescrambler") _ _
          (given_nonce-Answered (j.as_string (j.member params "noncescrambler")) _ params r2 b2)
          (with_width-Answered params false _ r2 b2))

  pause_found-Answered :
      (pause : Bool) (idx : ℕ) (r : Response) (o : Option Miner)
      → IsBlank r
      → Answered (pause_found j lib pause idx r s o)
  pause_found-Answered pause idx r none b = error-Answers s _ _ r b
  pause_found-Answered pause idx r (some m) b = with_result-Answers _ _ r b

  pausegpu-Answered :
      (request : Value) (r : Response) → IsBlank r → Answered (miner_pausegpu j lib request r s)
  unfolding miner_pausegpu get_bool
  pausegpu-Answered request r b = with_access-Answered s r _ b (
      with_params-Answered s request _ _ b λ params r2 b2.
        with_fetched-Answered s _ _ (uint-Sane "index" params r2 b2) λ idx r3 b3.
          with_fetched-Answered s _ _
            (get_request_value-Sane j j.is_bool (λ v. some (j.as_bool v)) "pause" false params r3
              b3)
            λ pause r4 b4. pause_found-Answered pause idx r4 (get_miner s.manager.farm idx) b4)

  setverbosity-Answered :
      (request : Value) (r : Response) → IsBlank r → Answered (miner_setverbosity j lib request r s)
  unfolding miner_setverbosity
  setverbosity-Answered request r b = with_access-Answered s r _ b (
      with_params-Answered s request _ _ b λ params r2 b2.
        with_fetched-Answered s _ _ (uint-Sane "verbosity" params r2 b2) λ verbosity r3 b3.
          if-Answered s (leb lib.log_next verbosity) _ _ (error-Answers s _ _ r3 b3)
            (with_result-Answers _ _ r3 b3))

  stat1-Answered : (r : Response) (o : Option Stat1) → IsBlank r → Answered (answer_stat1 s r o)
  stat1-Answered r none b = tt
  stat1-Answered r (some x) b = with_result-Answers _ _ r b

  detail-Answered : (r : Response) (o : DetailEnd) → IsBlank r → Answered (answer_detail s r o)
  detail-Answered r (has_detail x) b = with_result-Answers _ _ r b
  detail-Answered r detail_throws b = tt
  detail-Answered r detail_ends_process b = tt

  pub call_method-Answered :
      (method : Method) (request : Value) (r : Response)
      → IsBlank r
      → Answered (call_method j lib method request r s)
  unfolding call_method
  call_method-Answered getstat1 request r b = stat1-Answered r (get_miner_stat1 s.manager) b
  call_method-Answered getstatdetail request r b =
      detail-Answered r (get_miner_stat_detail lib.now s.manager) b
  call_method-Answered shuffles request r b = with_result-Answers _ _ r b
  call_method-Answered ping request r b = with_result-Answers _ _ r b
  call_method-Answered restarts request r b =
      with_access-Answered s r _ b (with_result-Answers _ _ r b)
  call_method-Answered reboots request r b =
      with_access-Answered s r _ b (with_result-Answers _ _ r b)
  call_method-Answered getconnections request r b = with_result-Answers _ _ r b
  call_method-Answered addconnection request r b = addconnection-Answered request r b
  call_method-Answered setactiveconnection request r b = setactiveconnection-Answered request r b
  call_method-Answered removeconnection request r b = removeconnection-Answered request r b
  call_method-Answered getscramblerinfo request r b = with_result-Answers _ _ r b
  call_method-Answered setscramblerinfo request r b = setscramblerinfo-Answered request r b
  call_method-Answered pausegpu request r b = pausegpu-Answered request r b
  call_method-Answered setverbosity request r b = setverbosity-Answered request r b
  call_method-Answered other request r b = error-Answers s _ _ r b
