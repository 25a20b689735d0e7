-- ===== src/Pool/Work.antt =====
-- libpoolprotocols/PoolManager.cpp: what holds of a manager through all events.
use firominer.Base.{ℕ, ◌≡◌, ◌≢◌, refl, sym, true, false, Bool, Option, none, some, arith, inl, inr}
use firominer.Base.{String, if◌then◌else◌, subst, ◌⊎◌, not}
use firominer.Miner.{WorkPackage, is_work}
use firominer.Farm.{Farm}
use firominer.Pool.{Uri, Client, Manager, after, connections}
use firominer.Pool.Connections.{remove_connection, set_active_connection_by_name}
use firominer.Pool.Connections.{set_active_connection_common, after_search, set_active_found}
use firominer.Pool.Connections.{find_connection}
use firominer.Pool.Rotate.{rotate_connect}
use firominer.Pool.Handlers.{on_connected, connected_client_to, on_disconnected, on_work_received}
use firominer.Pool.Handlers.{accounted, wake_farm, connected_through}
use firominer.Pool.Lifecycle.{stop}
use firominer.Farm.Calls.{call, call-IsWellFormed}
use firominer.Farm.Mining.{IsWellFormed}
use firominer.Farm.Solutions.{SolutionAccounting}
use firominer.Farm.Proof.{account_solution}
use firominer.Pool.Events.{Setting}
use firominer.Farm
use firominer.Farm.Calls

-- The work that the manager holds has its epoch.
abbrev pub HasEpoch : Manager → Type 0
HasEpoch m = is_work m.current_wp ≡ true → m.current_wp.epoch ≢ none

pub rotate_connect-HasEpoch : (m : Manager) → (after m (rotate_connect m)).current_wp ≡ m.current_wp
unfolding rotate_connect
rotate_connect-HasEpoch m = ground arith

pub set_active_connection-work :
    (m : Manager) (idx : ℕ)
    → (after m (set_active_connection_common m idx)).current_wp ≡ m.current_wp
unfolding set_active_connection_common
set_active_connection-work m idx = ground arith

pub remove_connection-work :
    (m : Manager) (idx : ℕ) → (after m (remove_connection m idx)).current_wp ≡ m.current_wp
unfolding remove_connection
remove_connection-work m idx = ground arith

pub on_work_received-HasEpoch :
    (random : ℕ → ℕ) (m : Manager) (wp : WorkPackage)
    → HasEpoch m
    → HasEpoch (after m (on_work_received random m wp))
unfolding on_work_received
on_work_received-HasEpoch random m wp h = ground arith

pub on_disconnected-HasEpoch : (m : Manager) → HasEpoch m → HasEpoch (after m (on_disconnected m))
unfolding on_disconnected
on_disconnected-HasEpoch m h = ground arith

-- What the manager keeps true: the epoch of its work, and a well-formed farm.
pub record IsSound (m : Manager) : Type 0 where
  pub epoch : HasEpoch m
  pub farm : IsWellFormed m.farm

-- An event that leaves the work and the farm alone.
pub same-IsSound :
    (m m' : Manager) → m'.current_wp ≡ m.current_wp → m'.farm ≡ m.farm → IsSound m → IsSound m'
same-IsSound m m' w f s = record {
  epoch = subst (λ (x : WorkPackage). is_work x ≡ true → x.epoch ≢ none) (sym w) s.epoch;
  farm = subst IsWellFormed (sym f) s.farm;
}

pub stop_or_same : (f g : Farm) → (g ≡ f) ⊎ (g ≡ Farm.stop f) → IsWellFormed f → IsWellFormed g
stop_or_same f g (inl e) w = subst IsWellFormed (sym e) w
stop_or_same f g (inr e) w =
    subst IsWellFormed (sym e) (unfold call in call-IsWellFormed (λ n. n) f Farm.Calls.stops w)

pub rotate_connect-farm :
    (m : Manager)
    → let f = (after m (rotate_connect m)).farm in (f ≡ m.farm) ⊎ (f ≡ Farm.stop m.farm)
unfolding rotate_connect
rotate_connect-farm m = ground arith

pub stop-farm :
    (m : Manager) → let f = (after m (stop m)).farm in (f ≡ m.farm) ⊎ (f ≡ Farm.stop m.farm)
unfolding stop
stop-farm m = ground arith

pub on_disconnected-farm :
    (m : Manager)
    → let f = (after m (on_disconnected m)).farm in
      ((f ≡ m.farm) ⊎ (f ≡ Farm.stop m.farm)) ⊎ (f ≡ Farm.pause m.farm)
unfolding on_disconnected
on_disconnected-farm m = ground arith

pub pause-or :
    (f g : Farm)
    → ((g ≡ f) ⊎ (g ≡ Farm.stop f)) ⊎ (g ≡ Farm.pause f)
    → IsWellFormed f
    → IsWellFormed g
pause-or f g (inl e) w = stop_or_same f g e w
pause-or f g (inr e) w =
    subst IsWellFormed (sym e) (unfold call in call-IsWellFormed (λ n. n) f Farm.Calls.pauses w)

module _ (e : Setting) where
  open e use {random, build, devices, iequals}

  pub start-farm : (f : Farm) → IsWellFormed f → IsWellFormed (Farm.start build devices f)
  start-farm f w = unfold call in call-IsWellFormed random f (Farm.Calls.starts build devices) w

  wake_farm-farm : (f : Farm) → IsWellFormed f → IsWellFormed (wake_farm build devices f)
  unfolding wake_farm
  wake_farm-farm f w = by_tests f.is_mining f.is_paused
    where
      by_tests :
          (mining held : Bool)
          → IsWellFormed
              (if not mining then Farm.start build devices f else if held then Farm.resume f else f)
      by_tests false held = start-farm f w
      by_tests true true = unfold call in call-IsWellFormed random f Farm.Calls.resumes w
      by_tests true false = w

  shuffled-farm :
      (test : Bool) (f : Farm)
      → IsWellFormed f
      → IsWellFormed (if test then Farm.shuffle random f else f)
  shuffled-farm true f w = unfold call in call-IsWellFormed random f Farm.Calls.shuffles w
  shuffled-farm false f w = w

  pub on_connected-IsSound :
      (m : Manager) (endpoint : String)
      → IsSound m
      → IsSound (after m (on_connected random build devices m endpoint))
  unfolding on_connected
  on_connected-IsSound m endpoint s = by_client m.client
    where
      by_client :
          (o : Option Client)
          → IsSound (after m (connected_client_to random build devices m endpoint o))
      by_client none = s
      by_client (some c) = by_connection c.connection
        where
          by_connection :
              (o : Option Uri)
              → IsSound (after m (connected_through random build devices m c endpoint o))
          by_connection none = s
          by_connection (some u) = record {
            epoch = λ h. absurd (ground arith);
            farm = wake_farm-farm _ (shuffled-farm _ m.farm s.farm);
          }

  pub set_active_by_name-lem :
      (m : Manager) (text : String)
      → let m' = after m (set_active_connection_by_name iequals m text) in
        (m'.current_wp ≡ m.current_wp) × (m'.farm ≡ m.farm)
  unfolding set_active_connection_by_name
  set_active_by_name-lem m text = by_search (find_connection iequals text 0 (connections m))
    where
      by_search :
          (o : Option ℕ)
          → let m' = after m (after_search (set_active_found m o)) in
            (m'.current_wp ≡ m.current_wp) × (m'.farm ≡ m.farm)
      by_search none = (refl, refl)
      by_search (some idx) = ground arith

  pub accounted-IsSound :
      (m : Manager) (midx : ℕ) (acc : SolutionAccounting) (now : ℕ)
      → IsSound m
      → IsSound (after m (accounted m (account_solution m.farm midx acc now)))
  accounted-IsSound m midx acc now s = by_throw _ kept
    where
      kept : IsWellFormed (account_solution m.farm midx acc now).0
      kept =
          unfold call in call-IsWellFormed random m.farm (Farm.Calls.accounts midx acc now) s.farm

      by_throw : (r : Farm × Bool) → IsWellFormed r.0 → IsSound (after m (accounted m r))
      by_throw (f, false) w = record { epoch = s.epoch; farm = w }
      by_throw (f, true) w = record { epoch = s.epoch; farm = w }
