-- ===== src/Stratum/Response/Settings.antt =====
-- libpoolprotocols/stratum/EthStratumClient.cpp: the notifications that change the
-- session, in `processResponse`.
use firominer.Stratum.Response.Notices.{set_boundary, convert}
use firominer.Stratum.Response.{
  NumberText, MiningSet, Message, Session, Client, Outcome, write_session,
}
use firominer.Stratum.Response.{
  post_disconnect, hash_of_text, empty_text, bad_number, number, returns,
}
use firominer.Stratum.Response.{throws, aborts}
use firominer.Stratum.Response.Login.{take_extranonce}
use firominer.Base.{ℕ, true, ◌&&◌, not, List, [], ◌∷◌, Option, none, some, if◌then◌else◌}
use firominer.Hex.{pad_left}
use firominer.Stratum.Extranonce.{process_extranonce}

-- `processExtranonce`, and the end of the connection where it fails. It writes to the session only
-- where it succeeds.
unfoldable pub extranonce_or_disconnect : List ℕ → Client → Outcome
unfolding process_extranonce
extranonce_or_disconnect enonce c =
    if (process_extranonce enonce c.session.nonce).0
    then write_session c.stratum.session (take_extranonce enonce c).session c
    else returns (post_disconnect c)

-- `mining.set_difficulty` of EthereumStratum/1.0.0.
unfoldable pub on_set_difficulty : Message → Client → Outcome
unfolding hash_of_text
on_set_difficulty m c =
    if m.params.is_array
    then convert (hash_of_text m.params.target_of_difficulty) c (λ boundary.
      write_session c.stratum.session (record (c.session) { next_work_boundary = boundary }) c)
    else returns c

-- `mining.set_extranonce` of EthereumStratum/1.0.0.
unfoldable pub on_set_extranonce : Message → Client → Outcome
unfolding extranonce_or_disconnect
on_set_extranonce m c =
    if m.params.is_array then extranonce_or_disconnect (m.params.as_string 0) c else returns c

abbrev pub put_session : Session → Client → Client
put_session s c = record c { session = s }

-- A number of `mining.set` that is kept where the text is empty.
abbrev pub convert_number : NumberText → ℕ → Client → (ℕ → Outcome) → Outcome
convert_number empty_text old c k = k old
convert_number bad_number old c k = throws c
convert_number (number n) old c k = k n

abbrev pub target_or : List ℕ → ℕ → Option ℕ
target_or [] old = some old
target_or (x ∷ xs) old = hash_of_text (b'0' ∷ b'x' ∷ pad_left (x ∷ xs) 64 b'0')

-- `mining.set` of EthereumStratum/2.0.0, on a session. The extranonce is not optional.
unfoldable pub mining_set_fields : MiningSet → Client → Outcome
unfolding hash_of_text pad_left extranonce_or_disconnect
mining_set_fields p c =
    let c1 = put_session (record (c.session) { first_mining_set = true }) c in
    convert_number p.timeout c1.session.timeout c1 (λ timeout.
      let c2 = put_session (record (c1.session) { timeout = timeout }) c1 in
      convert_number p.epoch c2.session.epoch c2 (λ epoch.
        let c3 = put_session (record (c2.session) { epoch = epoch }) c2 in
        convert (target_or p.target c3.session.next_work_boundary) c3 (λ boundary.
          let s = record (c3.session) { next_work_boundary = boundary; algo = p.algo } in
          extranonce_or_disconnect p.extranonce (put_session s c3))))

abbrev pub on_session : Option ℕ → Outcome → Outcome
on_session none o = aborts
on_session (some start) o = o

unfoldable pub on_mining_set : Message → Client → Outcome
unfolding mining_set_fields
on_mining_set m c =
    if m.has_params && (m.mining_set_params.is_object && not m.params.is_empty)
    then on_session c.stratum.session (mining_set_fields m.mining_set_params c)
    else returns c

-- `mining.set_target`, in any mode: it is the boundary of the current work at once.
unfoldable pub on_set_target : Message → Client → Outcome
unfolding hash_of_text
on_set_target m c =
    convert (hash_of_text (m.params.as_string 0)) c (λ boundary. returns (set_boundary boundary c))
