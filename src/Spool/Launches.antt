-- ===== src/Spool/Launches.antt =====
-- agent/services/result_artifact_spool.py: the registration of a launch, and the end of its window.
use Prim.Native.Char.{code}
use Prim.Native.String.{[] as nil, ◌∷◌ as ◌⊳◌}
use pitlane_agent.Common.{
  ℕ, zero, suc, String, Option, none, some, Bool, true, false, List, [], ◌&&◌, ◌||◌, not, ◌==◌,
  str_eq, if◌then◌else◌, map,
}
use pitlane_agent.Common.Json.{Value, Fields, boolean, get, as_object}
use pitlane_agent.Common.Dict.{lookup, insert}
use pitlane_agent.Common.Text.{strip, is_empty}
use pitlane_agent.Journal.Contract.{text_of}
use pitlane_agent.Spool.Types.{Library, Artifact, Launch, Spool}
use pitlane_agent.Spool.Deliveries.{Scope, resync_artifacts, inventory}
use pitlane_agent.Spool.Scans.{Directories, ResultFile, launch_name, scan_once}

-- `rstrip('/\\')`.
unfoldable pub strip_slashes : String → String
strip_slashes nil = nil
strip_slashes (c ⊳ s) =
    let rest = strip_slashes s in
    if (code c == 47 || code c == 92) && is_empty rest then nil else c ⊳ rest

-- The scans of one call.
unfoldable pub scan_times : ℕ → Library → Directories → Spool → Spool
unfolding scan_once
scan_times zero lib dirs s = s
scan_times (suc n) lib dirs s = scan_times n lib dirs (scan_once lib dirs s).0

abbrev pub is_none {ℓ} : {A : Type ℓ} → Option A → Bool
is_none none = true
is_none (some a) = false

unfoldable pub close_launch : String → ℕ → String × Launch → String × Launch
close_launch instance now (name, l) = (
  name,
  if str_eq l.instance_id instance && is_none l.closed_at
      then record l { closed_at = some now }
      else l,
)

-- `_close_open_launches`.
unfoldable pub close_open_launches : String → ℕ → Spool → Spool
unfolding close_launch
close_open_launches instance now s = record s {
  launches = map (close_launch instance now) s.launches;
}

unfoldable pub close_result_window : Library → Directories → ℕ → String → Spool → Spool
unfolding scan_times close_open_launches
close_result_window lib dirs now instance s =
    close_open_launches instance now (scan_times s.stable_scans lib dirs s)

-- What `runtime_config.Server` says of the results.
pub record Request : Type 0 where
  pub correlation_id : String
  pub upload_url : String
  pub results_path : String

abbrev pub is_not_false : Value → Bool
is_not_false (boolean false) = false
is_not_false v = true

unfoldable pub request_of : Library → Fields → Request
unfolding strip strip_slashes
request_of lib server = record {
  correlation_id = strip (text_of lib.python (get server "ResultCorrelationId"));
  upload_url = strip (text_of lib.python (get server "ResultsPostUrl"));
  results_path = strip_slashes (strip (text_of lib.python (get server "ResultsPath")));
}

abbrev pub is_incomplete : ℕ → Request → Bool
is_incomplete launch_id q =
    launch_id == 0 || is_empty q.correlation_id || is_empty q.upload_url || is_empty q.results_path

pub data Registered : Type 0 where
  registered known : Launch → Registered
  not_collected : Registered
  invalid_config : Registered

abbrev pub names_of : Option (List ResultFile) → List String
names_of none = []
names_of (some files) = map (λ f. f.name) files

abbrev pub new_launch : String → ℕ → Request → ℕ → List String → Launch
new_launch instance launch_id q now baseline = record {
  instance_id = instance;
  launch_id = launch_id;
  result_correlation_id = q.correlation_id;
  upload_url = q.upload_url;
  results_path = q.results_path;
  registered_at = now;
  baseline_files = baseline;
  observed_files = [];
  closed_at = none;
}

-- A launch whose results are collected and whose manifest's name is given.
unfoldable pub register_named :
    Library → Directories → ℕ → String → ℕ → Request → String → Spool → Spool × Registered
unfolding close_result_window lookup insert
register_named lib dirs now instance launch_id q name s = elim (lookup name s.launches) [
  | some l ↦ (s, known l)
  | none ↦
      let s' = close_result_window lib dirs now instance s in
      let l = new_launch instance launch_id q now (names_of (dirs q.results_path)) in
      (record s' { launches = insert name l s'.launches }, registered l)
]

-- A launch number below 1 counts as 0.
unfoldable pub register_launch :
    Library → Directories → ℕ → String → ℕ → Fields → Spool → Spool × Registered
unfolding request_of register_named close_result_window
register_launch lib dirs now instance launch_id runtime_config s =
    elim (as_object (get runtime_config "Server")) [
      | none ↦ (s, invalid_config)
      | some server ↦
          let q = request_of lib server in
          if not (is_not_false (get server "CollectResults"))
          then (close_result_window lib dirs now instance s, not_collected)
          else if is_incomplete launch_id q
          then (s, invalid_config)
          else elim (launch_name lib launch_id q.correlation_id) [
            | none ↦ (s, invalid_config)
            | some name ↦ register_named lib dirs now instance launch_id q name s
          ]
    ]

unfoldable pub resync : Library → Directories → Scope → Spool → Spool × ℕ × ℕ
unfolding scan_once resync_artifacts
resync lib dirs f s = resync_artifacts f (scan_once lib dirs s).0

-- result_pipeline.py: `register_result_launch` and `resync_result_artifacts`.
unfoldable pub register_result_launch :
    Library → Directories → ℕ → String → Option ℕ → Fields → Spool → Spool × Registered
unfolding register_launch close_result_window
register_result_launch lib dirs now instance none runtime_config s =
    (close_result_window lib dirs now instance s, not_collected)
register_result_launch lib dirs now instance (some launch_id) runtime_config s =
    register_launch lib dirs now instance launch_id runtime_config s

unfoldable pub resync_result_artifacts :
    Library → Directories → Scope → Spool → Spool × (ℕ × ℕ) × List Artifact
unfolding resync inventory
resync_result_artifacts lib dirs f s =
    let r = resync lib dirs f s in (r.0, (r.1, r.2), inventory f r.0)
