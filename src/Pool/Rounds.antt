-- ===== src/Pool/Rounds.antt =====
-- libpoolprotocols/PoolManager.cpp: the try that follows one that failed.
use firominer.Base.{ℕ, sym, subst, ap, ◌+◌, ◌%◌, ◌^◌, ◌≤◌, ◌<◌, ◌≡◌, refl, ◌∙◌, false, some, length}
use firominer.Base.{length-set, get_elem?, All, All-set, All-get_elem?, get_elem?_lt, arith, leb}
use firominer.Base.{if◌then◌else◌, str_eq}
use firominer.Pool.{done, PoolSettings, Uri, Client, Manager, after, connections, is_connected}
use firominer.Pool.Rotate.{rotate_connect, select, connect_or_give_up, try_connect, next_connection}
use firominer.Pool.Rotate.{wrap_index}
use firominer.Pool.Handlers.{on_disconnected}
use firominer.Pool.Retry.{chosen, rotate_connect-chosen}

-- The connection and the number of its try, after a try that failed: of `count` connections, each
-- has `tries` tries in a row.
abbrev pub next_try : ℕ → ℕ → ℕ × ℕ → ℕ × ℕ
next_try count tries (active, attempt) =
    if leb tries attempt
    then (if leb count (active + 1) then 0 else active + 1, 1)
    else (active, attempt + 1)

-- A connection that is neither unrecoverable nor the one that means to exit.
abbrev pub Usable : Uri → Type 0
Usable u = (u.unrecoverable ≡ false) × (str_eq u.host "exit" ≡ false)

-- The client disconnects, and then the posted `rotateConnect` runs.
unfoldable pub failed_try : Manager → Manager
unfolding on_disconnected rotate_connect
failed_try m = let m1 = after m (on_disconnected m) in after m1 (rotate_connect m1)

-- A manager that is trying one of `count` usable connections, with up to `tries` tries for each.
pub record Tries (count tries : ℕ) (m : Manager) : Type 0 where
  pub going : m.stopping ≡ false
  pub client : Client
  pub has_client : m.client ≡ some client
  pub counted : length (connections m) ≡ count
  pub usable : All Usable (connections m)
  pub limit : m.settings.connection_max_retries ≡ tries
  pub within : m.active_connection_idx < count
  pub tried : m.connection_attempt ≤ tries

-- What a try changes for the next one.
record IsTry (m m' : Manager) : Type 0 where
  usable : All Usable (connections m')
  counted : length (connections m') ≡ length (connections m)
  same_active : m'.active_connection_idx ≡ m.active_connection_idx
  attempt : m'.connection_attempt ≡ (m.connection_attempt + 1) % 2 ^ 32
  limit : m'.settings.connection_max_retries ≡ m.settings.connection_max_retries
  going : m'.stopping ≡ m.stopping
  client : Client
  has_client : m'.client ≡ some client

try_connect-IsTry :
    (m : Manager) (u : Uri) → All Usable (connections m) → Usable u → IsTry m (try_connect m u)
unfolding try_connect
try_connect-IsTry m u all us = record {
  usable =
      All-set Usable (connections m) m.active_connection_idx (record u { responds = false }) all us;
  counted = length-set (connections m) m.active_connection_idx (record u { responds = false });
  same_active = refl;
  attempt = refl;
  limit = refl;
  going = refl;
  client = _;
  has_client = refl;
}

connect_or_give_up-IsTry :
    (m : Manager)
    → All Usable (connections m)
    → m.active_connection_idx < length (connections m)
    → IsTry m (connect_or_give_up m (get_elem? (connections m) m.active_connection_idx))
connect_or_give_up-IsTry m all within =
    let (u, e) = get_elem?_lt (connections m) m.active_connection_idx within in
    let us = All-get_elem? Usable (connections m) m.active_connection_idx u all e in
    rw (e, us.1) (try_connect-IsTry m u all us)

-- The manager whose active connection is tried next.
abbrev turned : Manager → Manager
turned m =
    if leb m.settings.connection_max_retries m.connection_attempt then next_connection m else m

abbrev turn : ℕ → ℕ → ℕ × ℕ → ℕ × ℕ
turn count tries (active, attempt) =
    if leb tries attempt
    then (if leb count (active + 1) then 0 else active + 1, 0)
    else (active, attempt)

turned_lem :
    (count tries : ℕ) (m : Manager)
    → length (connections m) ≡ count
    → m.settings.connection_max_retries ≡ tries
    → m.active_connection_idx < count
    → count < 2 ^ 32
    → let m1 = turned m in
      let t = turn count tries (m.active_connection_idx, m.connection_attempt) in
      (connections m1 ≡ connections m)
      × (m1.active_connection_idx ≡ t.0)
      × (m1.connection_attempt ≡ t.1)
      × (m1.settings.connection_max_retries ≡ tries)
      × (m1.stopping ≡ m.stopping)
      × (m1.client ≡ m.client)
unfolding next_connection
turned_lem count tries m counted limit within small = ground arith

chosen-turned :
    (m : Manager) (u : Uri)
    → u.unrecoverable ≡ false
    → let m1 = turned m in
      chosen m u ≡ connect_or_give_up m1 (get_elem? (connections m1) m1.active_connection_idx)
unfolding chosen select
chosen-turned m u e = rw e refl

wrap_index_within :
    (m : Manager) → m.active_connection_idx < length (connections m) → wrap_index m ≡ m
wrap_index_within m h = ground arith

disconnected_lem :
    (m : Manager) (c : Client)
    → m.stopping ≡ false
    → m.client ≡ some c
    → let m1 = after m (on_disconnected m) in
      (m1.settings ≡ m.settings)
      × (m1.active_connection_idx ≡ m.active_connection_idx)
      × (m1.connection_attempt ≡ m.connection_attempt)
      × (m1.stopping ≡ false)
      × (is_connected m1 ≡ false)
unfolding on_disconnected
disconnected_lem m c going has = ground arith

rotate-turned :
    (m : Manager) (u : Uri)
    → is_connected m ≡ false
    → m.active_connection_idx < length (connections m)
    → get_elem? (connections m) m.active_connection_idx ≡ some u
    → u.unrecoverable ≡ false
    → let m1 = turned m in
      rotate_connect m
      ≡ done (connect_or_give_up m1 (get_elem? (connections m1) m1.active_connection_idx))
rotate-turned m u off within e usable =
    let same = wrap_index_within m within in
    rotate_connect-chosen m u off
      (subst (λ x. get_elem? (connections x) x.active_connection_idx ≡ some u) (sym same) e)
    ∙ ap done (ap (λ x. chosen x u) same ∙ chosen-turned m u usable)

-- The rotation of a manager whose client is not connected.
rotate-next_try :
    (count tries : ℕ) (m : Manager)
    → is_connected m ≡ false
    → m.stopping ≡ false
    → length (connections m) ≡ count
    → All Usable (connections m)
    → m.settings.connection_max_retries ≡ tries
    → m.active_connection_idx < count
    → m.connection_attempt ≤ tries
    → count < 2 ^ 32
    → 0 < tries
    → tries < 2 ^ 32
    → let m' = after m (rotate_connect m) in
      Tries count tries m'
      × (let t = next_try count tries (m.active_connection_idx, m.connection_attempt) in
          (m'.active_connection_idx ≡ t.0) × (m'.connection_attempt ≡ t.1))
rotate-next_try count tries m off going counted usable limit within tried small some_tries few =
    let (u, e) = get_elem?_lt (connections m) m.active_connection_idx (omega (arith, counted)) in
    let us = All-get_elem? Usable (connections m) m.active_connection_idx u usable e in
    let m1 = turned m in
    let (same, active, attempt, max, stay, _) =
      turned_lem count tries m counted limit within small in
    let t =
      connect_or_give_up-IsTry m1 (subst (All Usable) (sym same) usable)
        (ground (arith, ap length same, counted)) in
    rw (rotate-turned m u off (omega (arith, counted)) e us.0) (
      record {
        going = t.going ∙ stay ∙ going;
        client = t.client;
        has_client = t.has_client;
        counted = t.counted ∙ ap length same ∙ counted;
        usable = t.usable;
        limit = t.limit ∙ max;
        within = ground (arith, t.same_active, active);
        tried = ground (arith, t.attempt, attempt);
      },
      (ground (arith, t.same_active, active), ground (arith, t.attempt, attempt)),
    )

-- The order in which connections are tried: after a try that failed, the manager tries the
-- connection and with the count that `next_try` says. All connections are usable, no stop has been
-- asked for, at least one try is allowed, and the two counts fit 32 bits.
pub failed_try-next_try :
    (count tries : ℕ) (m : Manager)
    → Tries count tries m
    → count < 2 ^ 32
    → 0 < tries
    → tries < 2 ^ 32
    → let m' = failed_try m in
      Tries count tries m'
      × (let t = next_try count tries (m.active_connection_idx, m.connection_attempt) in
          (m'.active_connection_idx ≡ t.0) × (m'.connection_attempt ≡ t.1))
unfolding failed_try
failed_try-next_try count tries m t small some_tries few =
    let m1 = after m (on_disconnected m) in
    let (settings, active, attempt, going, off) =
      disconnected_lem m t.client t.going t.has_client in
    let r =
      rotate-next_try count tries m1 off going (ap (λ s. length s.connections) settings ∙ t.counted)
        (subst (λ (s : PoolSettings). All Usable s.connections) (sym settings) t.usable)
        (ap (λ s. s.connection_max_retries) settings ∙ t.limit) (rw active t.within)
        (rw attempt t.tried) small some_tries few in
    (r.0, (ground (arith, r.1, active, attempt), ground (arith, r.1, active, attempt)))
