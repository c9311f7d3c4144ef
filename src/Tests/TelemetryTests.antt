-- ===== src/Tests/TelemetryTests.antt =====
-- Runs of the telemetry, and its theorems at them.
use pitlane_agent.Common.{◌≡◌, refl, ◌↔◌, none, ℕ, String, List, some, true, false, [], ◌∷◌}
use pitlane_agent.Common.Dict.{lookup}
use pitlane_agent.Telemetry.Classify.{critical, classify, critical_iff}
use pitlane_agent.Telemetry.Log.{Patterns, LogState, see_lines}
use pitlane_agent.Telemetry.Log
use pitlane_agent.Telemetry.Observer.{LogFile, read_appended_lines}
use pitlane_agent.Telemetry.Facts.{race_is_sport, read_appended_lines-race_is_sport}
use pitlane_agent.Telemetry.Drivers.{
  Clock, Sighting, HttpStates, resolve, zero_streak, is_fresh, zero_confirmed_iff,
}

critical_iff_example : ((classify (some 95000) none none 0).0 ≡ critical) ↔ (true ≡ true)
critical_iff_example = critical_iff (some 95000) none none 0

-- Every line is a restart at a moment.
abbrev patterns : Patterns
patterns = record {
  player_count = λ l. none;
  session_created = λ l. none;
  timed_session_started = λ l. false;
  race_started = λ l. false;
  season_restart = λ l. true;
  crash = λ l. false;
  timestamp = λ l. some l;
  utc_iso = λ s. s;
  lower = λ s. s;
}

abbrev log_file : LogFile
log_file = record { size = 4; read_from = λ n. some ("a\nb\n", 4) }

read_appended_lines-race_is_sport_example :
    race_is_sport (read_appended_lines patterns (some log_file) (Log.init true)) ≡ true
read_appended_lines-race_is_sport_example =
    read_appended_lines-race_is_sport patterns (some log_file) (Log.init true) refl

-- The second line comes in two pieces.
abbrev pieces : List (String × ℕ)
pieces = ("a\nb", 3) ∷ ("c\n", 5) ∷ []

abbrev clock : Clock
clock = record { from_iso = λ s. some 1000 }

abbrev no_drivers : Sighting
no_drivers = record { connected_drivers = some 0; seen_at = some "t1" }

abbrev no_log : Sighting
no_log = record { connected_drivers = none; seen_at = none }

abbrev once : HttpStates
once = ("i1", ("p1", 1)) ∷ []

zero_confirmed_iff_example :
    ((resolve clock 2000 "i1" "p1" no_drivers no_log once).1.zero_confirmed ≡ true) ↔ (true ≡ true)
unfolding is_fresh zero_streak lookup
zero_confirmed_iff_example = zero_confirmed_iff clock 2000 "i1" "p1" no_drivers no_log once
