-- ===== src/Stratum/Response/Survival.antt =====
-- libpoolprotocols/stratum/EthStratumClient.cpp: notifications that do not end the whole
-- process.
use firominer.Stratum.Response.Settings.{
  extranonce_or_disconnect, on_set_difficulty, on_set_extranonce,
}
use firominer.Stratum.Response.Settings.{convert_number, target_or, mining_set_fields, on_session}
use firominer.Stratum.Response.Settings.{on_mining_set, on_set_target}
use firominer.Stratum.Response.{
  NumberText, MiningSet, empty_text, bad_number, number, Method, JsonArray,
}
use firominer.Stratum.Response.{
  Message, Session, Client, Outcome, is_some, is_subscribed, write_session,
}
use firominer.Stratum.Response.{mode_of, no_method, mining_notify, mining_set_difficulty}
use firominer.Stratum.Response.{mining_set_extranonce, mining_set, mining_set_target, mining_bye}
use firominer.Stratum.Response.{client_get_version, other_method, returns, throws, aborts}
use firominer.Stratum.Response.Notices.{convert, set_job, notify_nicehash, max_block, share_target}
use firominer.Stratum.Response.Notices.{notify_hashes, with_target, notify_stratum, notify_array}
use firominer.Stratum.Response.Notices.{on_mining_notify, notify2_fields, on_mining_notify2}
use firominer.Stratum.Response.Replies.{after_write}
use firominer.Stratum.Response.Process.{notice}
use firominer.Stratum.Extranonce.{process_extranonce}
use firominer.Base.{ℕ, Bool, true, false, not, ◌||◌, ◌&&◌, ◌+◌, ◌≤◌, ◌==◌, if◌then◌else◌, ltb, List}
use firominer.Base.{Option, none, some, ◌≡◌, refl, arith}

-- Whether the process goes on after a call.
abbrev pub survives : Outcome → Bool
survives (returns c) = true
survives (throws c) = true
survives aborts = false

pub survives-if :
    (b : Bool) (x y : Outcome)
    → survives x ≡ true
    → survives y ≡ true
    → survives (if b then x else y) ≡ true
survives-if true x y hx hy = hx
survives-if false x y hx hy = hy

survives-on_session :
    (s : Option ℕ) (o : Outcome)
    → is_some s ≡ true
    → survives o ≡ true
    → survives (on_session s o) ≡ true
survives-on_session none o in_session h = absurd (ground arith)
survives-on_session (some start) o in_session h = h

pub survives-after_write :
    (s : Option ℕ) (session : Session) (c : Client) (f : Client → Client)
    → is_some s ≡ true
    → survives (after_write s session c f) ≡ true
survives-after_write none session c f in_session = absurd (ground arith)
survives-after_write (some start) session c f in_session = refl

survives-write_session :
    (s : Option ℕ) (session : Session) (c : Client)
    → is_some s ≡ true
    → survives (write_session s session c) ≡ true
survives-write_session none session c in_session = absurd (ground arith)
survives-write_session (some start) session c in_session = refl

survives-notify_hashes :
    (a : JsonArray) (i : ℕ) (t : List ℕ) (c : Client) → survives (notify_hashes a i t c) ≡ true
unfolding notify_hashes
survives-notify_hashes a i t c = ground arith

survives-notify_nicehash : (a : JsonArray) (c : Client) → survives (notify_nicehash a c) ≡ true
unfolding notify_nicehash
survives-notify_nicehash a c = ground arith

survives-notify_stratum :
    (a : JsonArray) (i : ℕ) (c : Client)
    → a.as_int64 (i + 4) ≤ max_block
    → survives (notify_stratum a i c) ≡ true
unfolding notify_stratum
survives-notify_stratum a i c low =
    let fits : ltb max_block (a.as_int64 (i + 4)) ≡ false = ground (arith, low) in
    rw fits (by_target (share_target (a.as_string (i + 2))))
  where
    by_target :
        (t : Option (List ℕ))
        → survives (with_target t (set_job a.job c) (λ t. notify_hashes a i t (set_job a.job c)))
          ≡ true
    by_target none = refl
    by_target (some t) = survives-notify_hashes a i t (set_job a.job c)

survives-notify_array :
    (mode : ℕ) (a : JsonArray) (i : ℕ) (c : Client)
    → a.as_int64 (i + 4) ≤ max_block
    → survives (notify_array mode a i c) ≡ true
unfolding notify_array
survives-notify_array mode a i c low =
    survives-if (a.is_array && not a.is_empty) _ _
      (survives-if (mode == 2) _ _ (survives-notify_nicehash a c)
        (survives-notify_stratum a i c low))
      refl

survives-on_mining_notify :
    (m : Message) (c : Client)
    → m.params.as_int64 5 ≤ max_block
    → m.result.as_int64 4 ≤ max_block
    → survives (on_mining_notify m c) ≡ true
unfolding on_mining_notify
survives-on_mining_notify m c low_params low_result =
    survives-if (not (is_subscribed c) || c.new_job_processed) _ _ refl (
      survives-if (mode_of c == 1 && m.has_result) _ _
        (survives-notify_array (mode_of c) m.result 0 c low_result)
        (survives-notify_array (mode_of c) m.params 1 c low_params))

survives-extranonce :
    (enonce : List ℕ) (c : Client)
    → is_some c.stratum.session ≡ true
    → survives (extranonce_or_disconnect enonce c) ≡ true
unfolding extranonce_or_disconnect
survives-extranonce enonce c in_session =
    survives-if (process_extranonce enonce c.session.nonce).0 _ _
      (survives-write_session c.stratum.session _ c in_session) refl

survives-convert :
    (o : Option ℕ) (c : Client) (k : ℕ → Outcome)
    → ((n : ℕ) → survives (k n) ≡ true)
    → survives (convert o c k) ≡ true
survives-convert none c k h = refl
survives-convert (some n) c k h = h n

survives-convert_number :
    (t : NumberText) (old : ℕ) (c : Client) (k : ℕ → Outcome)
    → ((n : ℕ) → survives (k n) ≡ true)
    → survives (convert_number t old c k) ≡ true
survives-convert_number empty_text old c k h = h old
survives-convert_number bad_number old c k h = refl
survives-convert_number (number n) old c k h = h n

survives-mining_set_fields :
    (p : MiningSet) (c : Client)
    → is_some c.stratum.session ≡ true
    → survives (mining_set_fields p c) ≡ true
unfolding mining_set_fields
survives-mining_set_fields p c in_session = survives-convert_number p.timeout _ _ _ (λ timeout.
    survives-convert_number p.epoch _ _ _ (λ epoch.
      survives-convert (target_or p.target c.session.next_work_boundary) _ _
        (λ boundary. survives-extranonce p.extranonce _ in_session)))

survives-on_mining_set :
    (m : Message) (c : Client)
    → is_some c.stratum.session ≡ true
    → survives (on_mining_set m c) ≡ true
unfolding on_mining_set
survives-on_mining_set m c in_session =
    let valid = m.has_params && (m.mining_set_params.is_object && not m.params.is_empty) in
    survives-if valid _ (returns c)
      (survives-on_session c.stratum.session _ in_session
        (survives-mining_set_fields m.mining_set_params c in_session))
      refl

survives-on_set_difficulty :
    (m : Message) (c : Client)
    → is_some c.stratum.session ≡ true
    → survives (on_set_difficulty m c) ≡ true
unfolding on_set_difficulty
survives-on_set_difficulty m c in_session = ground (arith, in_session)

pub survives-notice :
    (method : Method) (m : Message) (c : Client)
    → is_some c.stratum.session ≡ true
    → m.params.as_int64 5 ≤ max_block
    → m.result.as_int64 4 ≤ max_block
    → survives (notice method m c) ≡ true
unfolding notice
survives-notice mining_notify m c in_session low_params low_result =
    survives-if (mode_of c == 3) _ _ (unfold on_mining_notify2 notify2_fields in ground arith)
      (survives-on_mining_notify m c low_params low_result)
survives-notice mining_set_difficulty m c in_session low_params low_result =
    survives-if (mode_of c == 2) _ (returns c) (survives-on_set_difficulty m c in_session) refl
survives-notice mining_set_extranonce m c in_session low_params low_result =
    let taken = survives-extranonce (m.params.as_string 0) c in_session in
    survives-if (mode_of c == 2) _ (returns c)
      (unfold on_set_extranonce in survives-if m.params.is_array _ (returns c) taken refl) refl
survives-notice mining_set m c in_session low_params low_result =
    survives-if (mode_of c == 3) _ (returns c) (survives-on_mining_set m c in_session) refl
survives-notice mining_set_target m c in_session low_params low_result =
    unfold on_set_target in ground arith
survives-notice mining_bye m c in_session low_params low_result = refl
survives-notice client_get_version m c in_session low_params low_result = refl
survives-notice no_method m c in_session low_params low_result = refl
survives-notice other_method m c in_session low_params low_result = refl
