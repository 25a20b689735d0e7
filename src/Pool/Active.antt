-- ===== src/Pool/Active.antt =====
-- libpoolprotocols/PoolManager.cpp: which connection is active after the calls on the list.
use firominer.Base.{
  ◌⊎◌, ℕ, ◌+◌, ◌-◌, ◌<◌, ◌≡◌, ◌≢◌, ◌↔◌, Bool, true, false, some, ◌∷◌, String, length,
}
use firominer.Base.{erase_at, arith, length-erase_at, get_elem?-erase_at_lt, get_elem?-erase_at_ge}
use firominer.Pool.{
  Client, Manager, done, threw, not_found, connections, succeeds, after, disconnects,
}
use firominer.Pool.Connections.{remove_connection, set_active_connection, find_connection}
use firominer.Pool.Connections.{set_active_connection_by_name, get_active_connection}

-- A connection is removed exactly if no operation is outstanding, the index is within bounds, and it
-- is not that of the active connection. Where it is not removed, nothing changes.
pub remove_connection-succeeds :
    (m : Manager) (idx : ℕ)
    → ((succeeds (remove_connection m idx) ≡ true) ↔ (
        (m.async_pending ≡ false)
        × (idx < length (connections m))
        × (idx ≢ m.active_connection_idx)))
      × ((succeeds (remove_connection m idx) ≡ true) ⊎ (after m (remove_connection m idx) ≡ m))
unfolding remove_connection
remove_connection-succeeds m idx = ground arith

-- A removal leaves the other connections in their order, the list one shorter, and the same
-- connection active, also where its index has changed.
remove_connection-active :
    (m m' : Manager) (idx : ℕ)
    → remove_connection m idx ≡ done m'
    → (connections m' ≡ erase_at (connections m) idx)
      × (length (connections m') + 1 ≡ length (connections m))
      × (get_active_connection m' ≡ get_active_connection m)
unfolding remove_connection get_active_connection
remove_connection-active m m' idx e = ground (
  arith,
  length-erase_at (connections m) idx,
  get_elem?-erase_at_lt (connections m) idx m.active_connection_idx,
  get_elem?-erase_at_ge (connections m) idx (m.active_connection_idx - 1),
)

-- Where no operation is outstanding, the index is within bounds and not that of the active
-- connection, and there is a client, `setActiveConnection` returns. It makes the connection active
-- with its tries reset, leaves the connections as they are, and asks the client to disconnect with
-- the flag of an outstanding operation set.
set_active_connection_lem :
    (m : Manager) (c : Client) (idx : ℕ)
    → m.async_pending ≡ false
    → m.client ≡ some c
    → idx < length (connections m)
    → idx ≢ m.active_connection_idx
    → let m' = after m (set_active_connection m idx) in
      (set_active_connection m idx ≡ done m')
      × (m'.active_connection_idx ≡ idx)
      × (m'.connection_attempt ≡ 0)
      × (m'.async_pending ≡ true)
      × (m'.client ≡ some (record c { connected = false }))
      × (m'.requests ≡ disconnects ∷ m.requests)
      × (connections m' ≡ connections m)
unfolding set_active_connection
set_active_connection_lem m c idx idle has within other = ground arith

-- Called with the text of a connection that is not the active one, with no operation outstanding
-- and a client, `setActiveConnection` finds it, makes it active and asks the client to disconnect,
-- and yet throws that there is no such connection.
pub set_active_connection_by_name_lem :
    (iequals : String → String → Bool) (m : Manager) (text : String) (idx : ℕ) (c : Client)
    → find_connection iequals text 0 (connections m) ≡ some idx
    → idx ≢ m.active_connection_idx
    → m.async_pending ≡ false
    → m.client ≡ some c
    → let m' = after m (set_active_connection_by_name iequals m text) in
      (set_active_connection_by_name iequals m text ≡ threw not_found m')
      × (m'.active_connection_idx ≡ idx)
      × (m'.requests ≡ disconnects ∷ m.requests)
unfolding set_active_connection_by_name
set_active_connection_by_name_lem iequals m text idx c e ne idle has = ground arith
