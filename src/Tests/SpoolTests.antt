-- ===== src/Tests/SpoolTests.antt =====
-- Runs of the result spool and of its pipeline, and their theorems at them.
use pitlane_agent.Common.{
  ◌≤◌, ◌<◌, Bool-cases, inl, inr, String, ◌≡◌, refl, none, some, true, false, List, [], ◌∷◌, arith,
  str_eq, order_by, select, eq_iff,
}
use pitlane_agent.Common.Json.{end, object}
use pitlane_agent.Common.Text.{take_text}
use pitlane_agent.Common.Dict.{lookup}
use pitlane_agent.Spool.Types.{Library, pending, Artifact, Launch, Spool}
use pitlane_agent.Spool.Deliveries.{is_due, mark_failed, retry_delay}
use pitlane_agent.Spool.Purge.{Order, purge_delivered, is_purgeable}
use pitlane_agent.Spool.Scans.{Directories, ResultFile, launch_name, hex_only}
use pitlane_agent.Spool.Pipeline.{Server, answered, unreachable, is_intact, upload, run_once}
use pitlane_agent.Spool.Stored.{IsStored}
use pitlane_agent.Spool.Purges.{purge_protects}
use pitlane_agent.Spool.Life.{here, next, by_purge, Reach-IsStored}
use pitlane_agent.Spool.Retries.{upload_accepts_only, run_once-is_due}
use pitlane_agent.Spool.Observed.{Pass, IsTracked, scan_passes, scan_passes-Tracks}
use pitlane_agent.Tests.JournalTests.{python}

abbrev pub library : Library
library = record {
  python = record python { sha256 = λ s. s; json_loads = λ s. some (object end) };
  path_name = λ s. s;
  artifact_uuid = λ s. s;
  decode = λ s. some s;
  utc_iso = λ n. "2026-01-01T00:00:00Z";
  lower = λ s. s;
  url_split = λ s. ("https", s);
}

abbrev race : Artifact
race = record {
  artifact_id = "a";
  instance_id = "i";
  launch_id = 1;
  result_correlation_id = "c";
  filename = "x_race.json";
  sha256 = "{}";
  size = 2;
  created_at = "";
  session_type_hint = some "RACE";
  upload_url = "https://hub";
  status = pending;
  attempts = 0;
  next_attempt_at = 0;
  last_error = none;
  delivered_at = none;
  response_status = none;
  purged_at = none;
  notified_hubs = [];
}

abbrev pub spool : Spool
spool = record {
  stable_scans = 2;
  candidates = [];
  launches = [];
  artifacts = ("a", race) ∷ [];
  files = ("a", "{}") ∷ [];
}

only_race : (k : String) (a : Artifact) → lookup k spool.artifacts ≡ some a → (k ≡ "a") × (a ≡ race)
unfolding lookup
only_race k a e = elim (Bool-cases (str_eq "a" k)) [
  | inl t ↦ let it : some race ≡ some a = rw t at e in (ground (arith, t, eq_iff "a" k), cc)
  | inr f ↦ let it : none ≡ some a = rw f at e in absurd (cc)
]

spool-IsStored : IsStored library spool
unfolding lookup
spool-IsStored = record {
  name = λ k a e. let (p, q) = only_race k a e in rw (p, q) refl;
  copy = λ k a e. let (p, q) = only_race k a e in rw q refl;
}

abbrev pub no_directories : Directories
no_directories _ = none

abbrev order : Order
order = record { instance_id = none; execute = true; now = 5; unlinks = λ _. true }

Reach-IsStored_example : IsStored library (purge_delivered library order ("a" ∷ []) spool).0
Reach-IsStored_example =
    Reach-IsStored library spool-IsStored (next here (by_purge order ("a" ∷ [])))

purge_protects_example :
    (lookup "a" (purge_delivered library order ("a" ∷ []) spool).0.artifacts ≡ some race)
    × (lookup "a" (purge_delivered library order ("a" ∷ []) spool).0.files ≡ lookup "a" spool.files)
unfolding lookup is_purgeable
purge_protects_example =
    purge_protects library order ("a" ∷ []) spool "a" race spool-IsStored refl refl

abbrev server : Server
server = record {
  post = λ a raw. answered 201;
  missing_copy = "missing";
  corrupt_copy = "corrupt";
  http_error = λ n. "http";
}

upload_accepts_only_example :
    (raw : String) × (lookup race.artifact_id spool.files ≡ some raw)
    × (is_intact library race raw ≡ true)
    × (server.post race raw ≡ answered 201)
    × (200 ≤ 201)
    × (201 < 300)
unfolding upload
upload_accepts_only_example = upload_accepts_only library server race spool 201 refl

abbrev failing : Server
failing = record server { post = λ a raw. unreachable "down" }

-- The upload fails at the fifth moment, so the race is due again two seconds later.
abbrev retried : Artifact
retried = record race { attempts = 1; next_attempt_at = 2000000005; last_error = some "down" }

retried_artifact :
    lookup "a" (run_once library failing no_directories 5 spool).0.artifacts ≡ some retried
unfolding run_once select order_by mark_failed retry_delay take_text
retried_artifact = refl

run_once-is_due_example : is_due 5 retried ≡ false
run_once-is_due_example =
    run_once-is_due library 5 failing no_directories spool "a" retried spool-IsStored
      retried_artifact

abbrev launch : Launch
launch = record {
  instance_id = "i";
  launch_id = 1;
  result_correlation_id = "c";
  upload_url = "https://hub";
  results_path = "r";
  registered_at = 0;
  baseline_files = [];
  observed_files = [];
  closed_at = none;
}

abbrev file : ResultFile
file = record {
  name = "x_race.json";
  path = "r/x_race.json";
  stat = some (record { size = 2; mtime = 3 });
  content = some "{}";
}

abbrev looked : Spool
looked = record spool {
  candidates = ("r/x_race.json", record { size = 2; mtime = 3; count = 1 }) ∷ [];
}

abbrev one_file : Directories
one_file d = some (file ∷ [])

-- The file is looked at twice, and becomes an artifact at the second look.
abbrev passes : List Pass
passes =
    record { directories = one_file; next_registered = none; spool = spool }
    ∷ record { directories = one_file; next_registered = none; spool = looked }
    ∷ []

abbrev launched : Spool
launched = record spool { launches = ("launch-?-c", launch) ∷ [] }

scan_passes-Tracks_example :
    IsTracked library "launch-?-c" launch (scan_passes library "launch-?-c" passes launched)
unfolding lookup launch_name hex_only
scan_passes-Tracks_example =
    scan_passes-Tracks library "launch-?-c" launch passes launched refl refl
