-- ===== src/Pool/Retry.antt =====
-- libpoolprotocols/PoolManager.cpp: `rotateConnect`, and the order in which connections are tried.
use firominer.Base.{
  ◌<◌, ◌≡◌, refl, false, Option, ◌∙◌, none, some, ◌∷◌, length, get_elem?, ◌⊎◌, inl,
}
use firominer.Base.{inr, get_elem?_lt, get_elem?-some, get_elem?-set_self, arith, leb, str_eq}
use firominer.Base.{Bool-cases}
use firominer.Pool.{Uri, Manager, done, after, connects, raises_sigterm, connections, is_connected}
use firominer.Pool.Connections.{get_active_connection}
use firominer.Pool.Rotate.{
  rotate_connect, select, connect_or_give_up, give_up, try_connect, wrap_index,
}
use firominer.Farm

-- A try is under way: a new client for the active connection, which it holds, has been asked to
-- connect.
pub record IsTrying (m m' : Manager) : Type 0 where
  pub uri : Uri
  pub active : get_active_connection m' ≡ some uri
  pub fresh :
      m'.client ≡ some (record { family = uri.family; connected = false; connection = some uri })
  pub asked : m'.requests ≡ connects ∷ m.requests
  pub goes_on : m'.running ≡ m.running

-- The manager has ended mining and asked the process to end.
pub record IsOver (m m' : Manager) : Type 0 where
  pub not_running : m'.running ≡ false
  pub not_mining : m'.farm.is_mining ≡ false
  pub asked : m'.requests ≡ raises_sigterm ∷ m.requests

try_connect-IsTrying :
    (m : Manager) (u : Uri)
    → get_elem? (connections m) m.active_connection_idx ≡ some u
    → IsTrying m (try_connect m u)
unfolding try_connect get_active_connection
try_connect-IsTrying m u e = record {
  uri = record u { responds = false };
  active =
      get_elem?-set_self (connections m) m.active_connection_idx (record u { responds = false })
        (get_elem?-some (connections m) m.active_connection_idx u e);
  fresh = refl;
  asked = refl;
  goes_on = refl;
}

give_up-IsOver : (m : Manager) → IsOver m (give_up m)
unfolding give_up Farm.stop
give_up-IsOver m = record { not_running = refl; not_mining = ground arith; asked = refl }

-- Choosing a connection asks for nothing, and leaves `m_running` alone.
select_lem :
    (m : Manager) (u : Uri)
    → ((select m u).requests ≡ m.requests) × ((select m u).running ≡ m.running)
unfolding select
select_lem m u = ground arith

IsTrying-cong :
    (m m1 m' : Manager)
    → m1.requests ≡ m.requests
    → m1.running ≡ m.running
    → IsTrying m1 m'
    → IsTrying m m'
IsTrying-cong m m1 m' e r t = record {
  uri = t.uri;
  active = t.active;
  fresh = t.fresh;
  asked = rw (← e) t.asked;
  goes_on = t.goes_on ∙ r;
}

IsOver-cong : (m m1 m' : Manager) → m1.requests ≡ m.requests → IsOver m1 m' → IsOver m m'
IsOver-cong m m1 m' e t = record {
  not_running = t.not_running;
  not_mining = t.not_mining;
  asked = rw (← e) t.asked;
}

connect_or_give_up_lem :
    (m : Manager) (o : Option Uri)
    → get_elem? (connections m) m.active_connection_idx ≡ o
    → IsTrying m (connect_or_give_up m o) ⊎ IsOver m (connect_or_give_up m o)
connect_or_give_up_lem m none e = inr (give_up-IsOver m)
connect_or_give_up_lem m (some u) e = elim (Bool-cases (str_eq u.host "exit")) [
  | inl exit ↦ rw exit (inr (give_up-IsOver m))
  | inr other ↦ rw other (inl (try_connect-IsTrying m u e))
]

wrap_index_lem :
    (m : Manager)
    → 0 < length (connections m)
    → let m1 = wrap_index m in
      (u : Uri) × (get_elem? (connections m1) m1.active_connection_idx ≡ some u)
      × (m1.requests ≡ m.requests)
      × (m1.running ≡ m.running)
wrap_index_lem m h = elim (Bool-cases (leb (length (connections m)) m.active_connection_idx)) [
  | inl out ↦ let (u, e) = get_elem?_lt (connections m) 0 h in rw out (u, e, refl, refl)
  | inr within ↦
      let (u, e) = get_elem?_lt (connections m) m.active_connection_idx (ground arith) in
      rw within (u, e, refl, refl)
]

-- The choice and the try, from a connection that is active.
unfoldable pub chosen : Manager → Uri → Manager
chosen m u =
    let m1 = select m u in
    connect_or_give_up m1 (get_elem? (connections m1) m1.active_connection_idx)

pub rotate_connect-chosen :
    (m : Manager) (u : Uri)
    → is_connected m ≡ false
    → get_elem? (connections (wrap_index m)) (wrap_index m).active_connection_idx ≡ some u
    → rotate_connect m ≡ done (chosen (wrap_index m) u)
unfolding rotate_connect chosen
rotate_connect-chosen m u off e = rw off (rw e refl)

chosen_lem : (m : Manager) (u : Uri) → IsTrying m (chosen m u) ⊎ IsOver m (chosen m u)
unfolding chosen
chosen_lem m u =
    let m1 = select m u in
    let same = select_lem m u in
    elim (connect_or_give_up_lem m1 (get_elem? (connections m1) m1.active_connection_idx) refl) [
      | inl t ↦ inl (IsTrying-cong m m1 _ same.0 same.1 t)
      | inr t ↦ inr (IsOver-cong m m1 _ same.0 t)
    ]

-- With a connection configured and the client not connected, `rotateConnect` returns. It either has
-- a fresh client try the connection that is active then, or ends mining and asks the process to
-- end.
pub rotate_connect_lem :
    (m : Manager)
    → is_connected m ≡ false
    → 0 < length (connections m)
    → let m' = after m (rotate_connect m) in
      (rotate_connect m ≡ done m') × (IsTrying m m' ⊎ IsOver m m')
rotate_connect_lem m off some_left =
    let (u, e, q, r) = wrap_index_lem m some_left in
    rw (rotate_connect-chosen m u off e) (
      refl,
      elim (chosen_lem (wrap_index m) u) [
        | inl t ↦ inl (IsTrying-cong m (wrap_index m) _ q r t)
        | inr t ↦ inr (IsOver-cong m (wrap_index m) _ q t)
      ],
    )
