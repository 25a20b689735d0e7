-- ===== src/Stratum/Response/Kept.antt =====
-- libpoolprotocols/stratum/EthStratumClient.cpp: what the notifications of the pool leave alone.

use firominer.Stratum.Response.Settings.{
  extranonce_or_disconnect, on_set_difficulty, on_set_extranonce,
}
use firominer.Stratum.Response.Settings.{
  mining_set_fields, on_session, on_mining_set, on_set_target,
}
use firominer.Stratum.Response.{
  is_subscribed, mode_of, no_method, mining_notify, mining_set_difficulty,
}
use firominer.Stratum.Response.{mining_set_extranonce, mining_set, mining_set_target, mining_bye}
use firominer.Stratum.Response.{
  client_get_version, other_method, Method, Message, JsonArray, MiningSet,
}
use firominer.Stratum.Response.{Client, Outcome, returns, throws, aborts}
use firominer.Stratum.Response.Notices.{set_job, max_block, share_target, with_target, notify_array}
use firominer.Stratum.Response.Notices.{notify_stratum, on_mining_notify, notify2_fields}
use firominer.Stratum.Response.Notices.{on_mining_notify2, notify_nicehash, notify_hashes}
use firominer.Stratum.Response.Process.{notice, on_notification}
use firominer.Base.{
  ℕ, Bool, true, false, if◌then◌else◌, not, ◌||◌, ◌&&◌, ◌+◌, ◌==◌, ltb, List, Option,
}
use firominer.Base.{none, some, ◌≡◌, refl, arith}

-- The client that a call leaves behind, if the process goes on.
abbrev pub Holds : (Client → Type 0) → Outcome → Type 0
Holds P (returns c) = P c
Holds P (throws c) = P c
Holds P aborts = Unit

-- A choice between two outcomes, by its cases.
pub Holds-if :
    (P : Client → Type 0) (b : Bool) (x y : Outcome)
    → Holds P x
    → Holds P y
    → Holds P (if b then x else y)
Holds-if P true x y hx hy = hx
Holds-if P false x y hx hy = hy

pub Holds-weaken :
    {P Q : Client → Type 0} (o : Outcome) → ((c : Client) → P c → Q c) → Holds P o → Holds Q o
Holds-weaken (returns c) f h = f c h
Holds-weaken (throws c) f h = f c h
Holds-weaken aborts f h = tt

-- The login of two clients is the same: their connection, their session and its flags; and no
-- callback has been called.
pub record SameLogin (c c' : Client) : Type 0 where
  pub same_session : c'.stratum.session ≡ c.stratum.session
  pub same_conn : c'.stratum.conn ≡ c.stratum.conn
  pub same_subscribed : c'.session.subscribed ≡ c.session.subscribed
  pub same_authorized : c'.session.authorized ≡ c.session.authorized
  pub same_calls : c'.calls ≡ c.calls

pub SameLogin-self : (c : Client) → SameLogin c c
SameLogin-self c = record {
  same_session = refl;
  same_conn = refl;
  same_subscribed = refl;
  same_authorized = refl;
  same_calls = refl;
}

notify_hashes-SameLogin :
    (a : JsonArray) (i : ℕ) (t : List ℕ) (c : Client) → Holds (SameLogin c) (notify_hashes a i t c)
unfolding notify_hashes
notify_hashes-SameLogin a i t c = ground arith

notify_nicehash-SameLogin : (a : JsonArray) (c : Client) → Holds (SameLogin c) (notify_nicehash a c)
unfolding notify_nicehash
notify_nicehash-SameLogin a c = ground arith

mining_set_fields-SameLogin :
    (p : MiningSet) (c : Client) → Holds (SameLogin c) (mining_set_fields p c)
unfolding mining_set_fields extranonce_or_disconnect
mining_set_fields-SameLogin p c = ground arith

notify_stratum-SameLogin :
    (a : JsonArray) (i : ℕ) (c : Client) → Holds (SameLogin c) (notify_stratum a i c)
unfolding notify_stratum
notify_stratum-SameLogin a i c =
    let named = set_job a.job c in
    let t = share_target (a.as_string (i + 2)) in
    Holds-if (SameLogin c) (ltb max_block (a.as_int64 (i + 4))) aborts
      (with_target t named (λ t. notify_hashes a i t named)) tt (by_target t)
  where
    by_target :
        (t : Option (List ℕ))
        → Holds
            (SameLogin c)
            (with_target t (set_job a.job c) (λ t. notify_hashes a i t (set_job a.job c)))
    by_target none = ground arith
    by_target (some t) =
        let named = set_job a.job c in
        Holds-weaken (notify_hashes a i t named) (λ c' h. ground (arith, h))
          (notify_hashes-SameLogin a i t named)

notify_array-SameLogin :
    (mode : ℕ) (a : JsonArray) (i : ℕ) (c : Client) → Holds (SameLogin c) (notify_array mode a i c)
unfolding notify_array
notify_array-SameLogin mode a i c =
    Holds-if (SameLogin c) (a.is_array && not a.is_empty) _ _
      (Holds-if (SameLogin c) (mode == 2) _ _ (notify_nicehash-SameLogin a c)
        (notify_stratum-SameLogin a i c))
      (SameLogin-self c)

on_mining_notify-SameLogin : (m : Message) (c : Client) → Holds (SameLogin c) (on_mining_notify m c)
unfolding on_mining_notify
on_mining_notify-SameLogin m c =
    Holds-if (SameLogin c) (not (is_subscribed c) || c.new_job_processed) _ _ (SameLogin-self c) (
      Holds-if (SameLogin c) (mode_of c == 1 && m.has_result) _ _
        (notify_array-SameLogin (mode_of c) m.result 0 c)
        (notify_array-SameLogin (mode_of c) m.params 1 c))

on_mining_set-SameLogin : (m : Message) (c : Client) → Holds (SameLogin c) (on_mining_set m c)
unfolding on_mining_set
on_mining_set-SameLogin m c =
    let fields = mining_set_fields-SameLogin m.mining_set_params c in
    let valid = m.has_params && (m.mining_set_params.is_object && not m.params.is_empty) in
    Holds-if (SameLogin c) valid _ (returns c) (in_session c.stratum.session _ fields)
      (SameLogin-self c)
  where
    in_session :
        (s : Option ℕ) (o : Outcome) → Holds (SameLogin c) o → Holds (SameLogin c) (on_session s o)
    in_session none o h = tt
    in_session (some start) o h = h

on_mining_notify2-SameLogin :
    (m : Message) (c : Client) → Holds (SameLogin c) (on_mining_notify2 m c)
unfolding on_mining_notify2 notify2_fields
on_mining_notify2-SameLogin m c = ground arith

-- The messages that change the job or the session's targets.
notice-SameLogin :
    (method : Method) (m : Message) (c : Client) → Holds (SameLogin c) (notice method m c)
unfolding notice
notice-SameLogin mining_notify m c =
    Holds-if (SameLogin c) (mode_of c == 3) _ _ (on_mining_notify2-SameLogin m c)
      (on_mining_notify-SameLogin m c)
notice-SameLogin mining_set_difficulty m c = unfold on_set_difficulty in ground arith
notice-SameLogin mining_set_extranonce m c =
    unfold on_set_extranonce extranonce_or_disconnect in ground arith
notice-SameLogin mining_set m c =
    Holds-if (SameLogin c) (mode_of c == 3) _ _ (on_mining_set-SameLogin m c) (SameLogin-self c)
notice-SameLogin mining_set_target m c = unfold on_set_target in ground arith
notice-SameLogin mining_bye m c = ground arith
notice-SameLogin client_get_version m c = ground arith
notice-SameLogin no_method m c = SameLogin-self c
notice-SameLogin other_method m c = SameLogin-self c

pub on_notification-SameLogin :
    (method : Method) (m : Message) (c : Client) → Holds (SameLogin c) (on_notification method m c)
unfolding on_notification
on_notification-SameLogin method m c = ground (arith, notice-SameLogin method m c, SameLogin-self c)
