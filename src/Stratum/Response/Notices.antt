-- ===== src/Stratum/Response/Notices.antt =====
-- libpoolprotocols/stratum/EthStratumClient.cpp: the notifications of the pool, in
-- `processResponse`.
use firominer.Stratum.Response.{
  JsonArray, Message, Client, Outcome, is_some, is_subscribed, mode_of,
}
use firominer.Stratum.Response.{hash_of_text, returns, throws, aborts}
use firominer.Stratum.Response.Replies.{is_nonempty}
use firominer.Base.{
  ℕ, ◌+◌, ◌-◌, true, ◌&&◌, ◌||◌, not, List, ◌∷◌, ◌++◌, Option, none, some, ltb, String,
}
use firominer.Base.{◌==◌, if◌then◌else◌, length, replicate, drop}
use firominer.Hex.{pad_left}
use firominer.Miner.{WorkPackage}

-- Assignments to `m_current`, and the sign that its job is to be dispatched.
abbrev pub set_current : WorkPackage → Client → Client
set_current wp c = record c { current = wp }

abbrev pub set_job : String → Client → Client
set_job job c = record c { current = record (c.current) { job = job } }

abbrev pub set_seed : ℕ → Client → Client
set_seed seed c = record c { current = record (c.current) { seed = seed } }

abbrev pub set_header : ℕ → Client → Client
set_header header c = record c { current = record (c.current) { header = header } }

abbrev pub set_boundary : ℕ → Client → Client
set_boundary boundary c = record c { current = record (c.current) { boundary = boundary } }

abbrev pub set_block : ℕ → Client → Client
set_block block c = record c { current = record (c.current) { block = some block } }

abbrev pub set_block_boundary : ℕ → Client → Client
set_block_boundary b c = record c { current = record (c.current) { block_boundary = b } }

-- The nonces of the session go to the job.
abbrev pub set_nonces : Client → Client
set_nonces c = record c {
  current = record (c.current) {
    start_nonce = c.session.nonce.extra_nonce;
    ex_size_bytes = c.session.nonce.extra_nonce_size_bytes;
  };
}

abbrev pub announce : Client → Client
announce c = record c { new_job_processed = true }

-- A conversion that may throw, on a client, and what follows it.
abbrev pub convert : Option ℕ → Client → (ℕ → Outcome) → Outcome
convert none c k = throws c
convert (some n) c k = k n

-- The job of EthereumStratum/1.0.0.
unfoldable pub notify_nicehash : JsonArray → Client → Outcome
unfolding hash_of_text
notify_nicehash a c =
    let named = set_job a.job c in
    let assigned = convert (hash_of_text (a.as_string 1)) named (λ seed.
      let c1 = set_seed seed named in
      convert (hash_of_text (a.as_string 2)) c1 (λ header.
        let c2 = set_nonces (set_boundary c.session.next_work_boundary (set_header header c1)) in
        returns (announce (set_block (a.strtoul 3) c2)))) in
    if is_nonempty (a.as_string 2) && is_nonempty (a.as_string 1) then assigned else returns named

abbrev pub max_block : ℕ
max_block = 0x9660180

-- The share target, filled up to 66 characters; `substr` throws on a text of less than two.
unfoldable pub share_target : List ℕ → Option (List ℕ)
share_target t =
    let filled = b'0' ∷ b'x' ∷ replicate (66 - length t) b'0' ++ drop 2 t in
    if ltb (length t) 66 then if ltb (length t) 2 then none else some filled else some t

-- A hash of a text that may be missing already.
abbrev pub hash_of : Option (List ℕ) → Option ℕ
hash_of none = none
hash_of (some t) = hash_of_text t

-- The rest of the job of the other modes, from a filled share target: `i` is the index of the header.
unfoldable pub notify_hashes : JsonArray → ℕ → List ℕ → Client → Outcome
unfolding hash_of_text
notify_hashes a i target c = convert (hash_of_text (a.as_string (i + 1))) c (λ seed.
    let c1 = set_seed seed c in
    convert (hash_of_text (a.as_string i)) c1 (λ header.
      let c2 = set_header header c1 in
      convert (hash_of_text target) c2 (λ boundary.
        let c3 = set_boundary boundary c2 in
        convert (hash_of_text (a.target_of_bits (i + 5))) c3 (λ block_boundary.
          let c4 = set_nonces (set_block_boundary block_boundary c3) in
          returns (announce (set_block (a.as_int64 (i + 4)) c4))))))

abbrev pub with_target : Option (List ℕ) → Client → (List ℕ → Outcome) → Outcome
with_target none c k = throws c
with_target (some t) c k = k t

-- The job of plain stratum and of eth-proxy. For a block above the limit the code throws a pointer
-- to an exception: its handler and that of the caller take a reference, and nothing catches it.
unfoldable pub notify_stratum : JsonArray → ℕ → Client → Outcome
unfolding share_target notify_hashes
notify_stratum a i c =
    let named = set_job a.job c in
    if ltb max_block (a.as_int64 (i + 4))
    then aborts
    else with_target (share_target (a.as_string (i + 2))) named (λ t. notify_hashes a i t named)

unfoldable pub notify_array : ℕ → JsonArray → ℕ → Client → Outcome
unfolding notify_nicehash notify_stratum
notify_array mode a i c =
    if a.is_array && not a.is_empty
    then if mode == 2 then notify_nicehash a c else notify_stratum a i c
    else returns c

-- `mining.notify`, in the modes but EthereumStratum/2.0.0: nothing without a subscription, or after
-- another job of the same transmission.
unfoldable pub on_mining_notify : Message → Client → Outcome
unfolding is_subscribed notify_array
on_mining_notify m c =
    if not (is_subscribed c) || c.new_job_processed
    then returns c
    else if mode_of c == 1 && m.has_result
    then notify_array (mode_of c) m.result 0 c
    else notify_array (mode_of c) m.params 1 c

-- The header, padded to 64 digits. The boundary goes through its text of 64 digits, and back.
unfoldable pub notify2_fields : JsonArray → Client → Outcome
unfolding hash_of_text pad_left
notify2_fields a c =
    let named = set_job a.job c in
    convert (a.stoul 1) named (λ block.
      let c1 = set_block block named in
      let text = b'0' ∷ b'x' ∷ pad_left (a.as_string 2) 64 b'0' in
      convert (hash_of_text text) c1 (λ header.
        let c2 = set_boundary c.session.next_work_boundary (set_header header c1) in
        let wp = record (c2.current) { epoch = some c.session.epoch; algo = c.session.algo } in
        returns (announce (set_nonces (set_current wp c2)))))

-- `mining.notify` of EthereumStratum/2.0.0: nothing before `mining.set`.
unfoldable pub on_mining_notify2 : Message → Client → Outcome
unfolding notify2_fields
on_mining_notify2 m c =
    if is_some c.stratum.session
      && c.session.first_mining_set
      && (m.has_params && (m.params.is_array && (not m.params.is_empty && m.params.size == 4)))
    then notify2_fields m.params c
    else returns c
