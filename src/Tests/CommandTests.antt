-- ===== src/Tests/CommandTests.antt =====
-- Runs of the handler of a launch, and its theorem at them.
use pitlane_agent.Common.{◌≡◌, refl, none, some, true, [], ◌∷◌, any}
use pitlane_agent.Common.Json.{Fields, object, end, field}
use pitlane_agent.Common.Text.{strip}
use pitlane_agent.Config.Policy.{normalize_runtime_policy}
use pitlane_agent.Server.Instances.{has_pid, started}
use pitlane_agent.Commands.Launch.{
  Agent, Surroundings, already_executed, answered, launch_instance_command,
}
use pitlane_agent.Commands.Once.{launch_instance_command_once}
use pitlane_agent.Tests.ConfigTests.{machine, instance_9600, config}
use pitlane_agent.Tests.SpoolTests.{library, spool, no_directories}
use pitlane_agent.Tests.ServerTests.{start, stop, nothing}

abbrev agent : Agent
agent = record {
  files = record { current = []; history = []; entry_lists = [] };
  spool = spool;
  manager = nothing;
}

abbrev surroundings : Surroundings
surroundings = record {
  local = machine;
  encodes = λ c. true;
  library = library;
  directories = no_directories;
  now = 5;
  stop = stop;
  start = record start { launched = record start.launched { command_id = none } };
}

abbrev body : Fields
body = field "runtime_config" (object (config "secret")) end

first_answer :
    (launch_instance_command surroundings instance_9600 (some "u1") body agent).1
    ≡ answered (started 7)
unfolding launch_instance_command normalize_runtime_policy strip
first_answer = refl

-- After the launch, another server has been started.
abbrev later : Agent
later =
    let t = (launch_instance_command surroundings instance_9600 (some "u1") body agent).0 in
    record t { manager = record t.manager { live = 8 ∷ t.manager.live } }

still_lives : has_pid 7 later.manager.live ≡ true
unfolding launch_instance_command normalize_runtime_policy strip any
still_lives = refl

launch_instance_command_once_example :
    launch_instance_command surroundings instance_9600 (some "u1") end later
    ≡ (later, already_executed 7)
launch_instance_command_once_example =
    launch_instance_command_once surroundings surroundings instance_9600 "u1" body end agent later
      refl first_answer refl still_lives
