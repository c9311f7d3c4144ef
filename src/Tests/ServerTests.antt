-- ===== src/Tests/ServerTests.antt =====
-- Runs of the control of the game servers, and their theorems at them.
use pitlane_agent.Common.{
  ◌+◌, ◌≡◌, refl, ◌⊎◌, none, some, true, false, [], ◌∷◌, arith, any, ◌==◌, if◌then◌else◌,
}
use pitlane_agent.Common.Json.{end, field, text}
use pitlane_agent.Common.Dict.{lookup, insert}
use pitlane_agent.Common.Text.{strip}
use pitlane_agent.Server.Ports.{
  tcp, Conflict, found, conflict_eq, conflicts_of, holds, conflicts_of-any,
}
use pitlane_agent.Server.Waiting.{
  Machine, Ends, wait_for_instance_ports, wait_for_instance_ports-Ends,
}
use pitlane_agent.Server.Instances.{
  Launched, Manager, has_pid, Start, started, launched_info, start_instance, Stop, ends,
  stop_instance, restart_instance, restarted,
}
use pitlane_agent.Server.Owners.{Owned, IsNew, here, next, by_start, by_stop, Reach-Owned}
use pitlane_agent.Server.Stops.{IsStopped, stop_instance_ends, Runs, restart_instance_replaces}
use pitlane_agent.Server.Identity.{answer, Probe, inspect_process}
use pitlane_agent.Server.Persistence.{
  Saved, Restoration, restored_info, save_runtime_state, restore_runtime_state, StateFile, entry,
  later_version,
}
use pitlane_agent.Server.Adoption.{Adopted, entries_of, restore_adopts_only}
use pitlane_agent.Server.RoundTrip.{Restored, restore_runtime_state-save_runtime_state}

abbrev conflict : Conflict
conflict = record { protocol = tcp; port = 9600; pid = some 7 }

conflicts_of-any_example :
    any (conflict_eq conflict) (
      conflicts_of
        ((tcp, 9600) ∷ [])
        (record { protocol = some tcp; local_port = some 9600; listens = true; pid = some 7 } ∷ []))
    ≡ any
        (holds ((tcp, 9600) ∷ []) conflict)
        (record { protocol = some tcp; local_port = some 9600; listens = true; pid = some 7 } ∷ [])
conflicts_of-any_example =
    conflicts_of-any ((tcp, 9600) ∷ []) conflict
      (record { protocol = some tcp; local_port = some 9600; listens = true; pid = some 7 } ∷ [])

-- A machine on which the port is free from the moment 40 on.
abbrev machine : Machine
machine = record {
  inspect = λ t. if 40 == t then found [] else found (conflict ∷ []);
  sleep = λ t d. t + d;
}

wait_for_instance_ports-Ends_example :
    Ends machine (0 + 100) (wait_for_instance_ports machine 100 20 0)
wait_for_instance_ports-Ends_example =
    wait_for_instance_ports-Ends machine 100 20 0 (λ t d. omega arith)

abbrev launched : Launched
launched = record {
  instance = field "id" (text "i") end;
  started_at = 3;
  config = some "{}";
  config_loaded_at = none;
  command_id = some "u1";
  log_path = none;
  process_create_time = some 1000;
  executable_path = some "/game";
  game_observation = none;
  stop_on_season_restart = true;
  last_processed_count = 2;
}

abbrev pub nothing : Manager
nothing = record {
  supervisor = record { running = []; terminated = [] };
  last_config = [];
  live = [];
}

abbrev pub start : Start
start = record { ports = some []; pid = 7; now = "t1"; launched = launched; before_start = true }

abbrev pub stop : Stop
stop = record {
  reason = "manual_stop";
  now = "t2";
  before = none;
  later = none;
  ending = ends;
  code = λ p. none;
}

nothing-Owned : Owned nothing
unfolding any lookup
nothing-Owned = record {
  owner = λ p l. absurd (ground (arith, l));
  single = λ p i j l x y. absurd (ground (arith, l));
}

nothing-IsNew : IsNew 7 nothing
unfolding any lookup
nothing-IsNew = record { unborn = refl; unused = λ id e. ground (arith, e) }

Reach-Owned_example : Owned (stop_instance "i" stop (start_instance "i" start nothing).0).0
Reach-Owned_example =
    Reach-Owned nothing-Owned
      (next (next here (by_start "i" start nothing-IsNew)) (by_stop "i" stop))

abbrev one : Manager
one = record {
  supervisor = record { running = ("i", launched_info start) ∷ []; terminated = [] };
  last_config = [];
  live = 7 ∷ [];
}

stop_instance_ends_example : IsStopped "i" "manual_stop" 7 (stop_instance "i" stop one)
unfolding lookup
stop_instance_ends_example = stop_instance_ends "i" stop one refl refl refl

abbrev again : Start
again = record start { pid = 8; launched = record launched { command_id = some "u2" } }

restart_instance_replaces_example :
    ((restart_instance "i" stop again one).1 ≡ restarted (started 8))
    × (has_pid 7 (restart_instance "i" stop again one).0.live ≡ false)
    × Runs "i" "u2" again (restart_instance "i" stop again one).0
unfolding lookup
restart_instance_replaces_example =
    restart_instance_replaces "i" "u2" stop again one refl refl refl refl refl refl refl refl

abbrev probe : Probe
probe = record {
  pid_exists = true;
  process = answer tt;
  is_running = answer true;
  zombie = answer false;
  create_time = answer 1500;
  resolved = some "/game";
  name = answer "game";
  poll = true;
}

abbrev restoration : Restoration
restoration = record {
  paths = record { resolve = λ s. s; lower = λ s. s };
  game = none;
  probe = λ p. probe;
  boot = some 10;
  now = 20;
  observed_at = "t3";
  int_text = λ s. none;
}

restore_runtime_state-save_runtime_state_example :
    Restored
      (launched_info start)
      (restore_runtime_state restoration
        (save_runtime_state (7 ∷ []) 15 (some 10) one.supervisor)
        (record { running = []; terminated = [] })).0
      "i"
unfolding lookup any inspect_process strip
restore_runtime_state-save_runtime_state_example =
    restore_runtime_state-save_runtime_state restoration (7 ∷ []) 15 (some 10) one.supervisor "i"
      (refl, tt) refl refl refl refl refl refl

abbrev saved : Saved
saved = record {
  pid = 7;
  launched = launched;
  stop_requested_at = none;
  stop_reason = none;
  counters = end;
}

abbrev file : StateFile
file = later_version (some 10) (("i", entry saved) ∷ []) []

restore_adopts_only_example :
    (lookup "i" [] ≡ some (restored_info restoration "i" saved 1500))
    ⊎ Adopted restoration (entries_of file) "i" (restored_info restoration "i" saved 1500)
unfolding lookup restore_runtime_state inspect_process strip insert
restore_adopts_only_example =
    restore_adopts_only restoration file (record { running = []; terminated = [] }) "i" refl
