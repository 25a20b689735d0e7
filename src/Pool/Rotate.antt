-- ===== src/Pool/Rotate.antt =====
-- libpoolprotocols/PoolManager.cpp: `rotateConnect`, which picks the connection to try next.
use firominer.Base.{false, Option, none, some, length, get_elem?, set, erase_at, leb, ◌==◌}
use firominer.Base.{if◌then◌else◌, str_eq}
use firominer.Pool.{Uri, Manager, Outcome, done, threw, out_of_bounds, host_port, connects}
use firominer.Pool.{raises_sigterm, connections, with_connections, increment, request, is_connected}
use firominer.Farm

-- "Check we're within bounds".
abbrev pub wrap_index : Manager → Manager
wrap_index m =
    if leb (length (connections m)) m.active_connection_idx
    then record m { active_connection_idx = 0 }
    else m

abbrev pub switch : Manager → Manager
switch m = record m { connection_switches = increment m.connection_switches }

-- The active connection is unrecoverable, and is dropped.
unfoldable pub drop_active : Manager → Manager
drop_active m = switch (
    wrap_index (record (with_connections m (erase_at (connections m) m.active_connection_idx)) {
      connection_attempt = 0;
    }))

-- The tries of the active connection are used up.
unfoldable pub next_connection : Manager → Manager
next_connection m =
    if length (connections m) == 1
    then record m { connection_attempt = 0 }
    else switch (
        wrap_index (record m {
          connection_attempt = 0;
          active_connection_idx = increment m.active_connection_idx;
        }))

-- The connection to try, from the active one.
unfoldable pub select : Manager → Uri → Manager
unfolding drop_active next_connection
select m u =
    if u.unrecoverable
    then drop_active m
    else if leb m.settings.connection_max_retries m.connection_attempt
    then next_connection m
    else m

-- A new client for the connection, with the call of `connect`.
unfoldable pub try_connect : Manager → Uri → Manager
try_connect m u =
    let u' = record u { responds = false } in
    request connects (record (with_connections m (set (connections m) m.active_connection_idx u')) {
      client = some (record { family = u.family; connected = false; connection = some u' });
      connection_attempt = increment m.connection_attempt;
      selected_host = host_port u.host u.port;
    })

-- There is nothing left to try, or the host is "exit": mining ends, and so does the process.
unfoldable pub give_up : Manager → Manager
give_up m =
    request raises_sigterm
      (record m { farm = if m.farm.is_mining then Farm.stop m.farm else m.farm; running = false })

abbrev pub connect_or_give_up : Manager → Option Uri → Manager
connect_or_give_up m none = give_up m
connect_or_give_up m (some u) = if str_eq u.host "exit" then give_up m else try_connect m u

abbrev pub rotate_from : Manager → Option Uri → Outcome
rotate_from m none = threw out_of_bounds m
rotate_from m (some u) =
    let m1 = select m u in
    done (connect_or_give_up m1 (get_elem? (connections m1) m1.active_connection_idx))

-- `rotateConnect`. Where no connection is configured, `at` throws.
unfoldable pub rotate_connect : Manager → Outcome
unfolding select try_connect give_up
rotate_connect m =
    if is_connected m
    then done m
    else (let m1 = wrap_index m in
        rotate_from m1 (get_elem? (connections m1) m1.active_connection_idx))
