-- ===== src/Spool/Stored.antt =====
-- No result is lost: every artifact that is not purged keeps its copy.
use pitlane_agent.Common.{
  ℕ, zero, suc, String, ◌≡◌, refl, ap, sym, ◌∙◌, inl, inr, Option, none, some, Bool, true, false,
  List, [], ◌∷◌, ◌||◌, arith, eq_iff, Option-cases, Bool-cases,
}
use pitlane_agent.Common.Dict.{Dict, lookup, lookup-insert}
use pitlane_agent.Spool.Types.{Library, purged, status_eq, Artifact, Launch, Spool}
use pitlane_agent.Spool.Deliveries.{artifact, update_artifact, add_text}
use pitlane_agent.Spool.Scans.{
  Directories, ResultFile, Stat, Scan, scan_stat, scan_file, scan_files, scan_launch, scan_launches,
  scan_once, enqueue, take_up, new_artifact, is_stable, write_launch, launch_manifests, in_window,
  read_result, is_known, earliest,
}
use pitlane_agent.Spool.Launches.{scan_times, close_open_launches, close_result_window}

abbrev pub has_copy : Dict String → Artifact → Bool
has_copy files a =
    status_eq a.status purged || elim (lookup a.artifact_id files) [ none ↦ false | some _ ↦ true ]

-- The manifest of an artifact is in the file of its name, and its copy is there unless it is purged.
pub record IsStored (lib : Library) (s : Spool) : Type 0 where
  pub name :
      (k : String) (a : Artifact) → lookup k s.artifacts ≡ some a → k ≡ lib.path_name a.artifact_id
  pub copy : (k : String) (a : Artifact) → lookup k s.artifacts ≡ some a → has_copy s.files a ≡ true

module _ (lib : Library) where
  -- An update that leaves the id, and revives no purged artifact.
  pub update-IsStored :
      (id : String) (f : Artifact → Artifact) (s : Spool)
      → ((a : Artifact) → (f a).artifact_id ≡ a.artifact_id)
      → ((a : Artifact)
          → artifact lib id s ≡ some a
          → status_eq a.status purged ≡ true
          → status_eq (f a).status purged ≡ true)
      → IsStored lib s
      → IsStored lib (update_artifact lib id f s)
  unfolding update_artifact artifact
  update-IsStored id f s same live v = elim (Option-cases (lookup (lib.path_name id) s.artifacts)) [
    | inl n ↦ rw (n, update_artifact, artifact) v
    | inr (a, p) ↦
        rw (p, update_artifact, artifact)
          (record {
            name = λ k b q. ground (
              arith,
              q,
              p,
              same a,
              v.name (lib.path_name id) a p,
              v.name k b,
              lookup-insert (lib.path_name id) k (f a) s.artifacts,
              eq_iff (lib.path_name id) k,
            );
            copy = λ k b q. ground (
              arith,
              q,
              p,
              same a,
              live a p,
              v.copy (lib.path_name id) a p,
              v.copy k b,
              lookup-insert (lib.path_name id) k (f a) s.artifacts,
              eq_iff (lib.path_name id) k,
            );
          })
  ]

  -- Only the artifacts and the copies count.
  pub same-IsStored :
      {s t : Spool}
      → t.artifacts ≡ s.artifacts
      → t.files ≡ s.files
      → IsStored lib s
      → IsStored lib t
  same-IsStored {s = s} {t = t} p q v = record {
    name = λ k a e. v.name k a (ap (lookup k) (sym p) ∙ e);
    copy = λ k a e. ap (λ files. has_copy files a) q ∙ v.copy k a (ap (lookup k) (sym p) ∙ e);
  }

  enqueue-IsStored :
      (a : Artifact) (raw : String) (s : Spool)
      → IsStored lib s
      → IsStored lib (enqueue lib a raw s)
  unfolding enqueue
  enqueue-IsStored a raw s v = record {
    name = λ k b q. ground (
      arith,
      q,
      v.name k b,
      lookup-insert (lib.path_name a.artifact_id) k a s.artifacts,
      eq_iff (lib.path_name a.artifact_id) k,
    );
    copy = λ k b q. ground (
      arith,
      q,
      v.copy k b,
      lookup-insert (lib.path_name a.artifact_id) k a s.artifacts,
      eq_iff (lib.path_name a.artifact_id) k,
      lookup-insert a.artifact_id b.artifact_id raw s.files,
      lookup-insert a.artifact_id a.artifact_id raw s.files,
      eq_iff a.artifact_id b.artifact_id,
      eq_iff a.artifact_id a.artifact_id,
    );
  }

  write_launch-IsStored :
      (l : Launch) (s : Spool) → IsStored lib s → IsStored lib (write_launch lib l s)
  write_launch-IsStored l s v =
      same-IsStored {s = s} {t = write_launch lib l s} (ground arith) (ground arith) v

  take_up-IsStored :
      (f : ResultFile) (st : Stat) (raw : String) (c : Scan)
      → IsStored lib c.spool
      → IsStored lib (take_up lib f st raw c).spool
  unfolding take_up
  take_up-IsStored f st raw c v =
      let a = new_artifact lib c.launch f.name raw st.mtime in
      let l = record c.launch { observed_files = add_text f.name c.launch.observed_files } in
      write_launch-IsStored l (enqueue lib a raw c.spool) (enqueue-IsStored a raw c.spool v)

  looked-IsStored :
      (path : String) (st : Stat) (s : Spool)
      → IsStored lib s
      → IsStored lib (is_stable path st s).0
  unfolding is_stable
  looked-IsStored path st s v = same-IsStored {s = s} refl refl v

  scan_stat-IsStored :
      (cutoff : Option ℕ) (f : ResultFile) (st : Stat) (c : Scan)
      → IsStored lib c.spool
      → IsStored lib (scan_stat lib cutoff f st c).spool
  unfolding scan_stat
  scan_stat-IsStored cutoff f st c v =
      let looked = record c { spool = (is_stable f.path st c.spool).0 } in
      let w = looked-IsStored f.path st c.spool v in
      elim (Bool-cases (in_window c.launch cutoff st)) [
        | inr out ↦ rw (out, scan_stat) v
        | inl inside ↦ elim (Bool-cases (is_stable f.path st c.spool).1) [
          | inr moving ↦ rw (inside, moving, scan_stat) w
          | inl still ↦ elim (Option-cases (read_result lib f)) [
            | inl n ↦ rw (inside, still, n, scan_stat) w
            | inr (raw, p) ↦ rw (inside, still, p, scan_stat) (take_up-IsStored f st raw looked w)
          ]
        ]
      ]

  scan_file-IsStored :
      (cutoff : Option ℕ) (f : ResultFile) (c : Scan)
      → IsStored lib c.spool
      → IsStored lib (scan_file lib cutoff f c).spool
  unfolding scan_file
  scan_file-IsStored cutoff f c v = elim (Bool-cases (is_known c.launch f.name)) [
    | inl known ↦ rw (known, scan_file) v
    | inr new ↦ elim (Option-cases f.stat) [
      | inl n ↦ rw (new, n, scan_file) v
      | inr (st, p) ↦ rw (new, p, scan_file) (scan_stat-IsStored cutoff f st c v)
    ]
  ]

  scan_files-IsStored :
      (cutoff : Option ℕ) (fs : List ResultFile) (c : Scan)
      → IsStored lib c.spool
      → IsStored lib (scan_files lib cutoff fs c).spool
  unfolding scan_files
  scan_files-IsStored cutoff [] c v = v
  scan_files-IsStored cutoff (f ∷ fs) c v =
      scan_files-IsStored cutoff fs (scan_file lib cutoff f c) (scan_file-IsStored cutoff f c v)

  scan_launch-IsStored :
      (dirs : Directories) (l : Launch) (next : Option ℕ) (s : Spool)
      → IsStored lib s
      → IsStored lib (scan_launch lib dirs l next s).0
  unfolding scan_launch
  scan_launch-IsStored dirs l next s v = elim (Option-cases (dirs l.results_path)) [
    | inl n ↦ rw (n, scan_launch) v
    | inr (files, p) ↦
        rw (p, scan_launch)
          (scan_files-IsStored (earliest next l.closed_at) files
            (record { spool = s; launch = l; created = [] }) v)
  ]

  scan_launches-IsStored :
      (dirs : Directories) (ls : List Launch) (s : Spool)
      → IsStored lib s
      → IsStored lib (scan_launches lib dirs ls s).0
  unfolding scan_launches
  scan_launches-IsStored dirs [] s v = v
  scan_launches-IsStored dirs (l ∷ ls) s v =
      scan_launches-IsStored dirs ls _ (scan_launch-IsStored dirs l _ s v)

  pub scan_once-IsStored :
      (dirs : Directories) (s : Spool) → IsStored lib s → IsStored lib (scan_once lib dirs s).0
  unfolding scan_once
  scan_once-IsStored dirs s v = scan_launches-IsStored dirs (launch_manifests s) s v

  scan_times-IsStored :
      (n : ℕ) (dirs : Directories) (s : Spool)
      → IsStored lib s
      → IsStored lib (scan_times n lib dirs s)
  unfolding scan_times
  scan_times-IsStored zero dirs s v = v
  scan_times-IsStored (suc n) dirs s v = scan_times-IsStored n dirs _ (scan_once-IsStored dirs s v)

  pub close-IsStored :
      (dirs : Directories) (now : ℕ) (instance : String) (s : Spool)
      → IsStored lib s
      → IsStored lib (close_result_window lib dirs now instance s)
  unfolding close_result_window close_open_launches
  close-IsStored dirs now instance s v =
      same-IsStored {s = scan_times s.stable_scans lib dirs s} refl refl
        (scan_times-IsStored s.stable_scans dirs s v)
