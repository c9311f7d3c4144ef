-- ===== src/Spool/Scans.antt =====
-- agent/services/result_artifact_spool.py: the launches, and the scan of their result directories. A
-- directory does not change while one call of the spool looks at it.
use Prim.Native.Char.{code}
use Prim.Native.String.{[] as nil, ◌∷◌ as ◌⊳◌, ◌++◌ as ◌+++◌}
use pitlane_agent.Common.{
  ℕ, ◌+◌, ◌*◌, min, String, Option, none, some, Bool, false, List, [], ◌∷◌, ◌++◌, ◌&&◌, ◌||◌, not,
  leb, ltb, ◌==◌, str_eq, if◌then◌else◌, map, le_text,
}
use pitlane_agent.Common.Int.{pos}
use pitlane_agent.Common.Json.{integer, object}
use pitlane_agent.Common.Dict.{Dict, lookup, insert}
use pitlane_agent.Common.Text.{is_empty, len}
use pitlane_agent.Spool.Types.{
  Library, pending, Artifact, Launch, Look, Spool, has, second, session_type_hint,
}
use pitlane_agent.Spool.Deliveries.{add_text}

pub record Stat : Type 0 where
  pub size : ℕ
  pub mtime : ℕ

-- A `*.json` file of a result directory; `none` where `stat` or reading raises.
pub record ResultFile : Type 0 where
  pub name : String
  pub path : String
  pub stat : Option Stat
  pub content : Option String

-- The files of a directory in the order of their names; `none` where there is no directory.
abbrev pub Directories : Type 0
Directories = String → Option (List ResultFile)

abbrev pub is_hex : ℕ → Bool
is_hex c = (leb 48 c && leb c 57) || (leb 97 c && leb c 102)

unfoldable pub hex_only : String → String
hex_only nil = nil
hex_only (c ⊳ s) = let rest = hex_only s in if is_hex (code c) then c ⊳ rest else rest

-- `_launch_path`, the name of the file; `none` for ValueError.
unfoldable pub launch_name : Library → ℕ → String → Option String
unfolding hex_only
launch_name lib launch_id correlation_id =
    let safe = hex_only (lib.lower correlation_id) in
    if is_empty safe
    then none
    else some ("launch-" +++ (lib.python.str_of (integer (pos launch_id)) +++ ("-" +++ safe)))

-- A launch that was registered has a name.
abbrev pub write_launch : Library → Launch → Spool → Spool
write_launch lib l s = elim (launch_name lib l.launch_id l.result_correlation_id) [
  | none ↦ s
  | some name ↦ record s { launches = insert name l s.launches }
]

-- `_is_stable`.
abbrev pub look_count : Option Look → Stat → ℕ
look_count none st = 1
look_count (some k) st = if k.size == st.size && k.mtime == st.mtime then k.count + 1 else 1

unfoldable pub is_stable : String → Stat → Spool → Spool × Bool
unfolding lookup insert
is_stable path st s =
    let n = look_count (lookup path s.candidates) st in
    (
      record s {
        candidates =
            insert path (record { size = st.size; mtime = st.mtime; count = n }) s.candidates;
      },
      leb s.stable_scans n,
    )

-- `_enqueue`, up to the writing: the identity and the manifest.
unfoldable pub artifact_identity : Library → Launch → String → String → String
artifact_identity lib l name sha256 = lib.artifact_uuid (
    lib.python.str_of (integer (pos l.launch_id))
    +++ (":" +++ (l.result_correlation_id +++ (":" +++ (name +++ (":" +++ sha256))))))

unfoldable pub new_artifact : Library → Launch → String → String → ℕ → Artifact
unfolding artifact_identity session_type_hint
new_artifact lib l name raw created = record {
  artifact_id = artifact_identity lib l name (lib.python.sha256 raw);
  instance_id = l.instance_id;
  launch_id = l.launch_id;
  result_correlation_id = l.result_correlation_id;
  filename = name;
  sha256 = lib.python.sha256 raw;
  size = len raw;
  created_at = lib.utc_iso created;
  session_type_hint = session_type_hint lib name;
  upload_url = l.upload_url;
  status = pending;
  attempts = 0;
  next_attempt_at = 0;
  last_error = none;
  delivered_at = none;
  response_status = none;
  purged_at = none;
  notified_hubs = [];
}

abbrev pub keep_copy : String → String → Dict String → Dict String
keep_copy id raw files = elim (lookup id files) [ none ↦ insert id raw files | some _ ↦ files ]

unfoldable pub enqueue : Library → Artifact → String → Spool → Spool
unfolding lookup insert
enqueue lib a raw s = record s {
  files = keep_copy a.artifact_id raw s.files;
  artifacts = insert (lib.path_name a.artifact_id) a s.artifacts;
}

-- The loop of `_scan_launch`: the spool, the launch, the artifacts that were made.
pub record Scan : Type 0 where
  pub spool : Spool
  pub launch : Launch
  pub created : List Artifact

abbrev pub is_after : Option ℕ → ℕ → Bool
is_after none mtime = false
is_after (some cutoff) mtime = leb cutoff mtime

abbrev pub is_known : Launch → String → Bool
is_known l name = has name l.baseline_files || has name l.observed_files

-- The tests on the time of a file.
unfoldable pub in_window : Launch → Option ℕ → Stat → Bool
in_window l cutoff st =
    not (ltb (st.mtime + 2 * second) l.registered_at) && not (is_after cutoff st.mtime)

-- The content, where it can be read and is a JSON object.
unfoldable pub read_result : Library → ResultFile → Option String
read_result lib f = elim f.content [
  | none ↦ none
  | some raw ↦ elim (lib.decode raw) [
    | none ↦ none
    | some decoded ↦ elim (lib.python.json_loads decoded) [ some (object d) ↦ some raw | _ ↦ none ]
  ]
]

unfoldable pub take_up : Library → ResultFile → Stat → String → Scan → Scan
unfolding new_artifact enqueue add_text
take_up lib f st raw c =
    let a = new_artifact lib c.launch f.name raw st.mtime in
    let l = record c.launch { observed_files = add_text f.name c.launch.observed_files } in
    record {
      spool = write_launch lib l (enqueue lib a raw c.spool);
      launch = l;
      created = c.created ++ a ∷ [];
    }

unfoldable pub scan_stat : Library → Option ℕ → ResultFile → Stat → Scan → Scan
unfolding in_window is_stable read_result take_up
scan_stat lib cutoff f st c =
    let r = is_stable f.path st c.spool in
    let looked = record c { spool = r.0 } in
    if not (in_window c.launch cutoff st)
    then c
    else if not r.1
    then looked
    else elim (read_result lib f) [ none ↦ looked | some raw ↦ take_up lib f st raw looked ]

unfoldable pub scan_file : Library → Option ℕ → ResultFile → Scan → Scan
unfolding scan_stat
scan_file lib cutoff f c =
    if is_known c.launch f.name
    then c
    else elim f.stat [ none ↦ c | some st ↦ scan_stat lib cutoff f st c ]

unfoldable pub scan_files : Library → Option ℕ → List ResultFile → Scan → Scan
unfolding scan_file
scan_files lib cutoff [] c = c
scan_files lib cutoff (f ∷ fs) c = scan_files lib cutoff fs (scan_file lib cutoff f c)

abbrev pub earliest : Option ℕ → Option ℕ → Option ℕ
earliest none b = b
earliest (some a) none = some a
earliest (some a) (some b) = some (min a b)

-- `_scan_launch`.
unfoldable pub scan_launch :
    Library → Directories → Launch → Option ℕ → Spool → Spool × List Artifact
unfolding scan_files
scan_launch lib dirs l next_registered s = elim (dirs l.results_path) [
  | none ↦ (s, [])
  | some files ↦
      let c =
        scan_files lib (earliest next_registered l.closed_at) files
          (record { spool = s; launch = l; created = [] }) in
      (c.spool, c.created)
]

-- `_launch_manifests`: by instance and time of registration.
unfoldable pub launch_le : Launch → Launch → Bool
launch_le l m =
    if str_eq l.instance_id m.instance_id
    then leb l.registered_at m.registered_at
    else le_text l.instance_id m.instance_id

unfoldable pub insert_launch : Launch → List Launch → List Launch
unfolding launch_le
insert_launch l [] = l ∷ []
insert_launch l (m ∷ ms) =
    let rest = insert_launch l ms in if launch_le l m then l ∷ m ∷ ms else m ∷ rest

unfoldable pub sort_launches : List Launch → List Launch
unfolding insert_launch
sort_launches [] = []
sort_launches (l ∷ ls) = insert_launch l (sort_launches ls)

unfoldable pub launch_manifests : Spool → List Launch
unfolding sort_launches
launch_manifests s = sort_launches (map (λ e. e.1) s.launches)

abbrev pub next_registered_at : Launch → List Launch → Option ℕ
next_registered_at l [] = none
next_registered_at l (m ∷ ms) =
    if str_eq m.instance_id l.instance_id then some m.registered_at else none

unfoldable pub scan_launches : Library → Directories → List Launch → Spool → Spool × List Artifact
unfolding scan_launch
scan_launches lib dirs [] s = (s, [])
scan_launches lib dirs (l ∷ ls) s =
    let r = scan_launch lib dirs l (next_registered_at l ls) s in
    let rest = scan_launches lib dirs ls r.0 in (rest.0, r.1 ++ rest.1)

unfoldable pub scan_once : Library → Directories → Spool → Spool × List Artifact
unfolding scan_launches launch_manifests
scan_once lib dirs s = scan_launches lib dirs (launch_manifests s) s
