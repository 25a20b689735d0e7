-- ===== src/Tests/Pool.antt =====
-- The pool manager at concrete inputs.
use firominer.Base.{refl, true, false, [], ◌∷◌, some, str_eq, String}
use firominer.Base.{arith}
use firominer.Miner.{WorkPackage, no_work}
use firominer.Farm.{new_farm}
use firominer.Tests.Farm.{random, settings, build, devices, farm}
use firominer.Pool.{Uri, PoolSettings, Client, Manager, stratum, dns, after, new_manager}
use firominer.Pool.Events.{Setting, Reach, here, returns, receives_work, step}
use firominer.Pool.Work.{IsSound}
use firominer.Pool.Sound.{Reach-IsSound}
use firominer.Pool.Handlers.{on_work_received}

abbrev pub uri : String → Uri
uri host = record {
  str = host;
  host = host;
  port = 3333;
  family = stratum;
  host_name_type = dns;
  unrecoverable = false;
  responds = true;
}

abbrev pub pool_settings : PoolSettings
pool_settings = record {
  connections = uri "one" ∷ uri "two" ∷ uri "three" ∷ [];
  pool_failover_timeout = 10;
  report_hashrate = false;
  hash_rate_interval = 60;
  connection_max_retries = 2;
}

abbrev pub client : Client
client = record { family = stratum; connected = true; connection = some (uri "two") }

-- A manager that mines with its second connection.
abbrev pub manager : Manager
manager = record (new_manager pool_settings farm) {
  running = true;
  active_connection_idx = 1;
  connection_attempt = 1;
  client = some client;
}

-- Its client has lost the connection.
abbrev lost : Manager
lost = record manager { client = some (record client { connected = false }) }

abbrev pub setting : Setting
setting = record { random = random; build = build; devices = devices; iequals = str_eq }

abbrev created : Manager
created = new_manager pool_settings (new_farm random settings)

abbrev work_package : WorkPackage
work_package = record no_work { header = 5; block = some 26001 }

abbrev working : Manager
working = after created (on_work_received random created work_package)

working-Reach : Reach setting created working
unfolding on_work_received step new_manager
working-Reach = returns (receives_work work_package) here refl

created-IsSound : IsSound created
unfolding new_manager new_farm
created-IsSound = record {
  epoch = λ h. absurd (cc);
  farm = record { indexed = tt; covered = omega arith; idle = λ h. refl };
}

Reach-IsSound_example : IsSound working
Reach-IsSound_example = Reach-IsSound setting created working working-Reach created-IsSound
