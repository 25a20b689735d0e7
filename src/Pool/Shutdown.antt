-- ===== src/Pool/Shutdown.antt =====
-- libpoolprotocols/PoolManager.cpp: how `stop` and the failover timer end.
use firominer.Base.{suc, ◌≡◌, ◌≢◌, true, false, none, some, ◌∷◌, arith}
use firominer.Pool.{Client, Manager, after, is_connected, disconnects}
use firominer.Pool.Handlers.{on_disconnected}
use firominer.Pool.Lifecycle.{stop, finish_stop, failover_timer_elapsed}
use firominer.Farm

-- A running manager whose client is connected stops: the client is asked to disconnect, and once its
-- handler has run, the manager is not running, the farm is not mining, both timers are off, and the
-- rest of `stop` lets go of the client.
stop-on_disconnected :
    (m : Manager) (c : Client)
    → m.running ≡ true
    → m.client ≡ some c
    → c.connected ≡ true
    → let m1 = after m (stop m) in
      let m2 = after m1 (on_disconnected m1) in
      (m1.requests ≡ disconnects ∷ m.requests)
      × (m2.running ≡ false)
      × (m2.farm.is_mining ≡ false)
      × (m2.failover_timer ≡ none)
      × (m2.submithr_timer ≡ none)
      × ((finish_stop m2).client ≡ none)
unfolding stop on_disconnected finish_stop Farm.stop
stop-on_disconnected m c running has connected = ground arith

-- A running manager whose client is not connected does not stop running: `stop` ends mining and the
-- timers, and leaves `m_running` and the posted calls of `rotateConnect` as they are.
pub stop-unconnected :
    (m : Manager)
    → m.running ≡ true
    → is_connected m ≡ false
    → let m' = after m (stop m) in
      (m'.farm.is_mining ≡ false)
      × (m'.running ≡ true)
      × (m'.stopping ≡ true)
      × (m'.posted ≡ m.posted)
unfolding stop Farm.stop
stop-unconnected m running off = ground arith

-- When the failover timer runs out on a running manager with a client, away from the primary
-- connection: the primary connection becomes active with its tries reset, and the client is asked to
-- disconnect; its handler, where no stop has been asked for, suspends the farm, and posts a call of
-- `rotateConnect` that has the primary connection to start from.
failover_timer_elapsed_lem :
    (m : Manager) (c : Client)
    → m.running ≡ true
    → m.stopping ≡ false
    → m.client ≡ some c
    → m.active_connection_idx ≢ 0
    → let m1 = after m (failover_timer_elapsed false m) in
      let m2 = after m1 (on_disconnected m1) in
      (m1.requests ≡ disconnects ∷ m.requests)
      × (m2.active_connection_idx ≡ 0)
      × (m2.connection_attempt ≡ 0)
      × (m2.farm.is_paused ≡ true)
      × (m2.posted ≡ suc m.posted)
      × (is_connected m2 ≡ false)
unfolding failover_timer_elapsed on_disconnected Farm.pause
failover_timer_elapsed_lem m c running going has away = ground arith
