-- ===== src/Pool/Connections.antt =====
-- libpoolprotocols/PoolManager.cpp: the list of connections, and which of them is active.
use firominer.Base.{ℕ, suc, ◌-◌, Bool, true, false, Option, none, some, List, [], ◌∷◌, ◌++◌, String}
use firominer.Base.{length, get_elem?, erase_at, ltb, leb, ◌==◌, if◌then◌else◌}
use firominer.Pool.{Uri, Manager, Outcome, done, threw, outstanding_operations, out_of_bounds}
use firominer.Pool.{active_connection, not_found, connections, with_connections, increment}
use firominer.Pool.{disconnect_client}

unfoldable pub add_connection : Manager → Uri → Manager
add_connection m u = with_connections m (connections m ++ u ∷ [])

unfoldable pub remove_connection : Manager → ℕ → Outcome
remove_connection m idx =
    if m.async_pending
    then threw outstanding_operations m
    else if leb (length (connections m)) idx
    then threw out_of_bounds m
    else if idx == m.active_connection_idx
    then threw active_connection m
    else (let m1 = with_connections m (erase_at (connections m) idx) in
        done (
          if ltb idx m.active_connection_idx
          then record m1 { active_connection_idx = m.active_connection_idx - 1 }
          else m1))

-- `setActiveConnectionCommon`. The exchange of the flag is taken not to fail spuriously.
unfoldable pub set_active_connection_common : Manager → ℕ → Outcome
set_active_connection_common m idx =
    if m.async_pending
    then threw outstanding_operations m
    else if idx == m.active_connection_idx
    then done (record m { async_pending = false })
    else disconnect_client
        (record m {
          async_pending = true;
          connection_switches = increment m.connection_switches;
          active_connection_idx = idx;
          connection_attempt = 0;
        })
        m.client

unfoldable pub set_active_connection : Manager → ℕ → Outcome
unfolding set_active_connection_common
set_active_connection m idx =
    if leb (length (connections m)) idx
    then threw out_of_bounds m
    else set_active_connection_common m idx

-- The index of the first connection that equals the text without regard to case.
-- `boost::iequals` is a parameter.
unfoldable pub find_connection : (String → String → Bool) → String → ℕ → List Uri → Option ℕ
find_connection iequals text idx [] = none
find_connection iequals text idx (u ∷ us) =
    if iequals u.str text then some idx else find_connection iequals text (suc idx) us

-- After the loop `found` is still false, whether or not the loop has found the connection.
abbrev pub after_search : Outcome → Outcome
after_search (done m) = threw not_found m
after_search other = other

abbrev pub set_active_found : Manager → Option ℕ → Outcome
set_active_found m none = done m
set_active_found m (some idx) = set_active_connection_common m idx

-- `setActiveConnection` by the text of the connection.
unfoldable pub set_active_connection_by_name : (String → String → Bool) → Manager → String → Outcome
unfolding find_connection set_active_connection_common
set_active_connection_by_name iequals m text =
    after_search (set_active_found m (find_connection iequals text 0 (connections m)))

-- `getActiveConnection`; `none` is the null pointer.
unfoldable pub get_active_connection : Manager → Option Uri
get_active_connection m = get_elem? (connections m) m.active_connection_idx

-- `getConnectionsJson`: for each connection its index, whether it is active, and its text.
pub record ConnectionEntry : Type 0 where
  pub index : ℕ
  pub active : Bool
  pub uri : String

unfoldable pub connection_entries : ℕ → ℕ → List Uri → List ConnectionEntry
connection_entries active i [] = []
connection_entries active i (u ∷ us) =
    record { index = i; active = i == active; uri = u.str } ∷ connection_entries active (suc i) us
