-- ===== src/Spool/Observed.antt =====
-- Which files of a result directory become artifacts, over many scans.
use pitlane_agent.Common.{
  ℕ, String, ◌≡◌, refl, ap, inl, inr, Option, some, true, false, List, [], ◌∷◌, ◌++◌, ◌&&◌, ◌||◌,
  arith, Option-cases, Bool-cases, eq_iff, str_eq, str_eq_refl, none, map, any, any-insert_by,
}
use pitlane_agent.Common.Dict.{lookup, lookup-insert}
use pitlane_agent.Spool.Types.{Library, Artifact, Launch, Spool, has}
use pitlane_agent.Spool.Deliveries.{add_text}
use pitlane_agent.Spool.Scans.{
  launch_name, write_launch, earliest, scan_launch, enqueue, Directories, ResultFile, Stat, Scan,
  scan_file, scan_files, take_up, is_known, is_stable, new_artifact,
}
use pitlane_agent.Spool.Taking.{scan_file_takes}

has-add_text : (x y : String) (xs : List String) → has y (add_text x xs) ≡ (str_eq y x || has y xs)
unfolding add_text any
has-add_text x y xs = elim (Bool-cases (has x xs)) [
  | inl t ↦ rw (t, add_text) (known t)
  | inr f ↦ rw (f, add_text) (any-insert_by (str_eq y) (λ z. z) x xs)
]
  where
    known : has x xs ≡ true → has y xs ≡ (str_eq y x || has y xs)
    known t = elim (Bool-cases (str_eq y x)) [
      | inl same ↦ ground (arith, t, same, eq_iff y x)
      | inr other ↦ ground (arith, other)
    ]

-- No text twice.
abbrev pub AreDistinct : List String → Type 0
AreDistinct [] = Unit
AreDistinct (x ∷ xs) = (has x xs ≡ false) × AreDistinct xs

has-append : (x y : String) (xs : List String) → has y (xs ++ x ∷ []) ≡ (has y xs || str_eq y x)
unfolding any
has-append x y [] = ground arith
has-append x y (z ∷ xs) = ground (arith, has-append x y xs)

AreDistinct-append :
    (x : String) (xs : List String) → has x xs ≡ false → AreDistinct xs → AreDistinct (xs ++ x ∷ [])
unfolding any
AreDistinct-append x [] new d = (refl, tt)
AreDistinct-append x (y ∷ xs) new (h, d) = (
  ground (arith, has-append x y xs, new, h, eq_iff x y, eq_iff y x),
  AreDistinct-append x xs (ground (arith, new)) d,
)

abbrev pub names : List Artifact → List String
names = map (λ a. a.filename)

has-append_all : (y : String) (xs ys : List String) → has y (xs ++ ys) ≡ (has y xs || has y ys)
unfolding any
has-append_all y [] ys = refl
has-append_all y (x ∷ xs) ys = ground (arith, has-append_all y xs ys)

AreDistinct-append_all :
    (xs ys : List String)
    → AreDistinct xs
    → AreDistinct ys
    → ((y : String) → (has y ys && has y xs) ≡ false)
    → AreDistinct (xs ++ ys)
unfolding any
AreDistinct-append_all [] ys d e apart = e
AreDistinct-append_all (x ∷ xs) ys (new, d) e apart = (
  ground (arith, has-append_all x xs ys, new, apart x, eq_iff x x),
  AreDistinct-append_all xs ys d e (λ y. ground (arith, apart y)),
)

-- The artifacts `created` that a launch has given from `l` until `m`: each of another file, none of a file
-- that `l` knew; and `m` knows the files that `l` knew and those that became artifacts.
pub record Tracks (l m : Launch) (created : List Artifact) : Type 0 where
  pub distinct : AreDistinct (names created)
  pub fresh : (x : String) → (has x (names created) && is_known l x) ≡ false
  pub known : (x : String) → is_known m x ≡ (is_known l x || has x (names created))

names-append_all : (xs ys : List Artifact) → names (xs ++ ys) ≡ names xs ++ names ys
names-append_all [] ys = refl
names-append_all (x ∷ xs) ys = ap (λ zs. x.filename ∷ zs) (names-append_all xs ys)

begin-Tracks : (l : Launch) → Tracks l l []
unfolding any
begin-Tracks l = record { distinct = tt; fresh = λ x. ground arith; known = λ x. ground arith }

append-Tracks :
    {l m n : Launch} (xs ys : List Artifact) → Tracks l m xs → Tracks m n ys → Tracks l n (xs ++ ys)
append-Tracks xs ys v w =
    let e : names (xs ++ ys) ≡ names xs ++ names ys = names-append_all xs ys in
    record {
      distinct = rw e (
          AreDistinct-append_all (names xs) (names ys) v.distinct w.distinct
            (λ y. ground (arith, w.fresh y, v.known y)));
      fresh = λ x.
          rw e (
            ground
              (arith, has-append_all x (names xs) (names ys), v.fresh x, w.fresh x, v.known x));
      known =
          λ x. rw e (ground (arith, has-append_all x (names xs) (names ys), v.known x, w.known x));
    }

-- The spool's manifest of the launch, under its name, is the launch of the scan.
record IsWritten (lib : Library) (name : String) (c : Scan) : Type 0 where
  stored : lookup name c.spool.launches ≡ some c.launch
  named : launch_name lib c.launch.launch_id c.launch.result_correlation_id ≡ some name

-- What a scan has done to the launch, whose manifest was `l` at first.
abbrev Scanned : Library → String → Launch → Scan → Type 0
Scanned lib name l c = Tracks l c.launch c.created × IsWritten lib name c

taken-Tracks :
    (lib : Library) (l : Launch) (f : ResultFile) (st : Stat) (raw : String) (c : Scan)
    → is_known c.launch f.name ≡ false
    → Tracks l c.launch c.created
    → Tracks l (take_up lib f st raw c).launch (take_up lib f st raw c).created
unfolding take_up new_artifact any
taken-Tracks lib l f st raw c new v =
    append-Tracks c.created (new_artifact lib c.launch f.name raw st.mtime ∷ []) v (record {
      distinct = (refl, tt);
      fresh = λ x. ground (arith, new, eq_iff x f.name);
      known = λ x. ground (arith, has-add_text f.name x c.launch.observed_files);
    })

write_launch_lem :
    (lib : Library) (name : String) (l : Launch) (s : Spool)
    → launch_name lib l.launch_id l.result_correlation_id ≡ some name
    → lookup name (write_launch lib l s).launches ≡ some l
write_launch_lem lib name l s n =
    rw (n, write_launch) (ground (arith, lookup-insert name name l s.launches, str_eq_refl name))

taken-IsWritten :
    (lib : Library) (name : String) (f : ResultFile) (st : Stat) (raw : String) (c : Scan)
    → IsWritten lib name c
    → IsWritten lib name (take_up lib f st raw c)
unfolding take_up enqueue
taken-IsWritten lib name f st raw c w =
    let l = record c.launch { observed_files = add_text f.name c.launch.observed_files } in
    record {
      stored =
          write_launch_lem lib name l
            (enqueue lib (new_artifact lib c.launch f.name raw st.mtime) raw c.spool) w.named;
      named = w.named;
    }

scan_file-Scanned :
    (lib : Library) (name : String) (cutoff : Option ℕ) (l : Launch) (f : ResultFile) (c : Scan)
    → Scanned lib name l c
    → Scanned lib name l (scan_file lib cutoff f c)
unfolding is_stable
scan_file-Scanned lib name cutoff l f c (v, w) = elim (scan_file_takes lib cutoff f c) [
  | inl (p, q, r) ↦ (rw (p, q) v, record { stored = rw (p, r) w.stored; named = rw p w.named })
  | inr t ↦
      let looked = record c { spool = (is_stable f.path t.stat c.spool).0 } in
      rw t.result (
        taken-Tracks lib l f t.stat t.raw looked t.unknown v,
        taken-IsWritten lib name f t.stat t.raw looked
            (record { stored = w.stored; named = w.named }),
      )
]

scan_files-Scanned :
    (lib : Library) (name : String) (cutoff : Option ℕ) (l : Launch) (fs : List ResultFile)
    (c : Scan)
    → Scanned lib name l c
    → Scanned lib name l (scan_files lib cutoff fs c)
unfolding scan_files
scan_files-Scanned lib name cutoff l [] c v = v
scan_files-Scanned lib name cutoff l (f ∷ fs) c v =
    scan_files-Scanned lib name cutoff l fs (scan_file lib cutoff f c)
      (scan_file-Scanned lib name cutoff l f c v)

-- The scans of a launch: each finds its directories, the time of the launch that follows, and a spool,
-- of which the manifests of the launches are those that the scan before has left.
pub record Pass : Type 0 where
  pub directories : Directories
  pub next_registered : Option ℕ
  pub spool : Spool

abbrev pub found : Pass → Spool → Spool
found p s = record p.spool { launches = s.launches }

-- Each pass reads the manifest of the launch from the spool; the artifacts of all are collected.
unfoldable pub scan_passes : Library → String → List Pass → Spool → Spool × List Artifact
unfolding scan_launch lookup
scan_passes lib name [] s = (s, [])
scan_passes lib name (p ∷ ps) s = elim (lookup name s.launches) [
  | none ↦ (s, [])
  | some l ↦
      let r = scan_launch lib p.directories l p.next_registered (found p s) in
      let rest = scan_passes lib name ps r.0 in (rest.0, r.1 ++ rest.1)
]

-- What a launch has become in the spool.
pub record IsTracked (lib : Library) (name : String) (l : Launch) (r : Spool × List Artifact)
    : Type 0 where
  pub manifest : Launch
  pub stored : lookup name r.0.launches ≡ some manifest
  pub named : launch_name lib manifest.launch_id manifest.result_correlation_id ≡ some name
  pub tracks : Tracks l manifest r.1

scan_launch-IsTracked :
    (lib : Library) (name : String) (d : Directories) (next : Option ℕ) (l : Launch) (s : Spool)
    → lookup name s.launches ≡ some l
    → launch_name lib l.launch_id l.result_correlation_id ≡ some name
    → IsTracked lib name l (scan_launch lib d l next s)
unfolding scan_launch
scan_launch-IsTracked lib name d next l s e n = elim (Option-cases (d l.results_path)) [
  | inl none_yet ↦
      rw (none_yet, scan_launch)
        (record { manifest = l; stored = e; named = n; tracks = begin-Tracks l })
  | inr (files, p) ↦
      let (v, w) =
        scan_files-Scanned lib name (earliest next l.closed_at) l files
          (record { spool = s; launch = l; created = [] })
          (begin-Tracks l, record { stored = e; named = n }) in
      rw (p, scan_launch) (record { manifest = _; stored = w.stored; named = w.named; tracks = v })
]

-- However often a launch whose manifest the spool holds is scanned, whatever its directory and the rest of
-- the spool hold each time: no file gives two artifacts, no file that the launch knew before gives
-- one, and the manifest that the spool holds in the end knows what the launch knew before and the
-- files that became artifacts.
pub scan_passes-Tracks :
    (lib : Library) (name : String) (l : Launch) (ps : List Pass) (s : Spool)
    → lookup name s.launches ≡ some l
    → launch_name lib l.launch_id l.result_correlation_id ≡ some name
    → IsTracked lib name l (scan_passes lib name ps s)
unfolding scan_passes
scan_passes-Tracks lib name l [] s e n = record {
  manifest = l;
  stored = e;
  named = n;
  tracks = begin-Tracks l;
}
scan_passes-Tracks lib name l (p ∷ ps) s e n =
    let r = scan_launch lib p.directories l p.next_registered (found p s) in
    let first = scan_launch-IsTracked lib name p.directories p.next_registered l (found p s) e n in
    let rest = scan_passes-Tracks lib name first.manifest ps r.0 first.stored first.named in
    rw (e, scan_passes)
      (record {
        manifest = rest.manifest;
        stored = rest.stored;
        named = rest.named;
        tracks = append-Tracks r.1 (scan_passes lib name ps r.0).1 first.tracks rest.tracks;
      })
