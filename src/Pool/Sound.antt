-- ===== src/Pool/Sound.antt =====
-- libpoolprotocols/PoolManager.cpp: the invariant through every event.
use firominer.Base.{ℕ, zero, suc, ◌≡◌, ◌≢◌, refl, true, false, Bool, Option, none, some, get_elem?}
use firominer.Base.{if◌then◌else◌, arith, subst, sym}
use firominer.Miner.{WorkPackage, is_work}
use firominer.Farm.{Farm}
use firominer.Farm.Calls.{call, call-IsWellFormed}
use firominer.Farm.Mining.{IsWellFormed}
use firominer.Farm.Proof.{Solution}
use firominer.Farm.Solutions.{is_accepted, is_rejected}
use firominer.Pool.{Uri, Manager, Outcome, done, threw, fault, after, connections}
use firominer.Pool.Handlers.{on_work_received, receive_work, save_work, on_solution_accepted}
use firominer.Pool.Handlers.{on_solution_rejected, on_miner_restart, on_solution_found}
use firominer.Pool.Work.{
  accounted-IsSound, IsSound, same-IsSound, stop_or_same, pause-or, start-farm,
}
use firominer.Pool.Work.{rotate_connect-farm, stop-farm, on_disconnected-farm, on_connected-IsSound}
use firominer.Pool.Work.{set_active_by_name-lem, rotate_connect-HasEpoch, on_work_received-HasEpoch}
use firominer.Pool.Work.{on_disconnected-HasEpoch}
use firominer.Pool.Connections.{remove_connection, set_active_connection, add_connection}
use firominer.Pool.Rotate.{rotate_connect}
use firominer.Pool.Events.{Event, Setting, step, Reach, here, returns, throws, take_posted, mark_at}
use firominer.Pool.Lifecycle.{
  start, stop, finish_stop, failover_timer_elapsed, submithr_timer_elapsed,
}
use firominer.Farm
use firominer.Farm.Calls

on_work_received-farm :
    (random : ℕ → ℕ) (m : Manager) (wp : WorkPackage)
    → IsWellFormed m.farm
    → IsWellFormed (after m (on_work_received random m wp)).farm
unfolding on_work_received
on_work_received-farm random m wp w = by_test (is_work wp)
  where
    saved :
        (o : Option Bool) (x : WorkPackage) → IsWellFormed (after m (save_work random m x o)).farm
    saved none x = w
    saved (some changed) x =
        unfold call in call-IsWellFormed random m.farm (Farm.Calls.sets_work x) w

    by_block : (o : Option ℕ) → IsWellFormed (after m (receive_work random m wp o)).farm
    by_block none = w
    by_block (some block) = saved _ _

    by_test :
        (b : Bool)
        → IsWellFormed (after m (if b then receive_work random m wp wp.block else done m)).farm
    by_test true = by_block wp.block
    by_test false = w

restart-farm :
    (e : Setting) (f : Farm)
    → IsWellFormed f
    → IsWellFormed (Farm.start e.build e.devices (if f.is_mining then Farm.stop f else f))
restart-farm e f w = start-farm e _ (by_test f.is_mining)
  where
    by_test : (b : Bool) → IsWellFormed (if b then Farm.stop f else f)
    by_test true = unfold call in call-IsWellFormed e.random f Farm.Calls.stops w
    by_test false = w

failover-same :
    (cancelled : Bool) (m : Manager)
    → let m' = after m (failover_timer_elapsed cancelled m) in
      (m'.current_wp ≡ m.current_wp) × (m'.farm ≡ m.farm)
unfolding failover_timer_elapsed
failover-same cancelled m = ground arith

submithr-same :
    (cancelled : Bool) (m : Manager)
    → ((submithr_timer_elapsed cancelled m).current_wp ≡ m.current_wp)
      × ((submithr_timer_elapsed cancelled m).farm ≡ m.farm)
unfolding submithr_timer_elapsed
submithr-same cancelled m = ground arith

removed-same :
    (m : Manager) (idx : ℕ)
    → let m' = after m (remove_connection m idx) in
      (m'.current_wp ≡ m.current_wp) × (m'.farm ≡ m.farm)
unfolding remove_connection
removed-same m idx = ground arith

activated-same :
    (m : Manager) (idx : ℕ)
    → let m' = after m (set_active_connection m idx) in
      (m'.current_wp ≡ m.current_wp) × (m'.farm ≡ m.farm)
unfolding set_active_connection
activated-same m idx = ground arith

finished-same :
    (m : Manager) → ((finish_stop m).current_wp ≡ m.current_wp) × ((finish_stop m).farm ≡ m.farm)
unfolding finish_stop
finished-same m = ground arith

stop-work : (m : Manager) → (after m (stop m)).current_wp ≡ m.current_wp
unfolding stop
stop-work m = ground arith

found-same :
    (m : Manager) (s : Solution)
    → ((on_solution_found m s).current_wp ≡ m.current_wp) × ((on_solution_found m s).farm ≡ m.farm)
unfolding on_solution_found
found-same m s = ground arith

after-IsSound :
    (m m1 : Manager) (o : Outcome) → IsSound m → IsSound (after m1 o) → IsSound (after m o)
after-IsSound m m1 (done m') s t = t
after-IsSound m m1 (threw err m') s t = t
after-IsSound m m1 fault s t = s

posted-IsSound : (m : Manager) (n : ℕ) → IsSound m → IsSound (after m (take_posted m n))
posted-IsSound m zero s = s
posted-IsSound m (suc n) s = after-IsSound m m1 (rotate_connect m1) s (record {
  epoch =
      subst (λ (x : WorkPackage). is_work x ≡ true → x.epoch ≢ none)
        (sym (rotate_connect-HasEpoch m1)) s.epoch;
  farm = stop_or_same m.farm _ (rotate_connect-farm m1) s.farm;
})
  where
    m1 : Manager
    m1 = record m { posted = n }

marked-IsSound : (m : Manager) (idx : ℕ) (o : Option Uri) → IsSound m → IsSound (mark_at m idx o)
marked-IsSound m idx none s = s
marked-IsSound m idx (some u) s = record { epoch = s.epoch; farm = s.farm }

step-IsSound :
    (e : Setting) (m : Manager) (ev : Event) → IsSound m → IsSound (after m (step e m ev))
unfolding step start add_connection on_miner_restart on_solution_accepted on_solution_rejected
step-IsSound e m Event.starts s = record { epoch = s.epoch; farm = s.farm }
step-IsSound e m Event.stops s = record {
  epoch =
      subst (λ (x : WorkPackage). is_work x ≡ true → x.epoch ≢ none) (sym (stop-work m)) s.epoch;
  farm = stop_or_same m.farm _ (stop-farm m) s.farm;
}
step-IsSound e m Event.stop_ends s = same-IsSound m _ (finished-same m).0 (finished-same m).1 s
step-IsSound e m (Event.adds u) s = same-IsSound m (add_connection m u) refl refl s
step-IsSound e m (Event.removes idx) s =
    same-IsSound m _ (removed-same m idx).0 (removed-same m idx).1 s
step-IsSound e m (Event.activates idx) s =
    same-IsSound m _ (activated-same m idx).0 (activated-same m idx).1 s
step-IsSound e m (Event.activates_by_name text) s =
    let q = set_active_by_name-lem e m text in same-IsSound m _ q.0 q.1 s
step-IsSound e m Event.rotates s = posted-IsSound m m.posted s
step-IsSound e m Event.disconnects_client s = record {
  epoch = on_disconnected-HasEpoch m s.epoch;
  farm = pause-or m.farm _ (on_disconnected-farm m) s.farm;
}
step-IsSound e m Event.restarts_miners s = record {
  epoch = s.epoch;
  farm = restart-farm e m.farm s.farm;
}
step-IsSound e m (Event.connects_client endpoint) s = on_connected-IsSound e m endpoint s
step-IsSound e m (Event.receives_work wp) s = record {
  epoch = on_work_received-HasEpoch e.random m wp s.epoch;
  farm = on_work_received-farm e.random m wp s.farm;
}
step-IsSound e m (Event.accepted midx now) s = accounted-IsSound e m midx is_accepted now s
step-IsSound e m (Event.rejected midx now) s = accounted-IsSound e m midx is_rejected now s
step-IsSound e m (Event.finds sol) s = same-IsSound m _ (found-same m sol).0 (found-same m sol).1 s
step-IsSound e m (Event.failover_elapses b) s =
    same-IsSound m _ (failover-same b m).0 (failover-same b m).1 s
step-IsSound e m (Event.submithr_elapses b) s =
    same-IsSound m _ (submithr-same b m).0 (submithr-same b m).1 s
step-IsSound e m (Event.marks idx) s = marked-IsSound m idx (get_elem? (connections m) idx) s
step-IsSound e m (Event.calls_farm c) s = record {
  epoch = s.epoch;
  farm = call-IsWellFormed e.random m.farm c s.farm;
}

-- Through every event, also one that throws, the manager's work keeps its epoch and its farm stays
-- well formed.
pub Reach-IsSound : (e : Setting) (m0 m : Manager) → Reach e m0 m → IsSound m0 → IsSound m
Reach-IsSound e m0 m here s = s
Reach-IsSound e m0 m (returns {m = m1} ev r eq) s =
    subst (λ o. IsSound (after m1 o)) eq (step-IsSound e m1 ev (Reach-IsSound e m0 m1 r s))
Reach-IsSound e m0 m (throws {m = m1} ev r eq) s =
    subst (λ o. IsSound (after m1 o)) eq (step-IsSound e m1 ev (Reach-IsSound e m0 m1 r s))
