-- ===== src/Spool/Taking.antt =====
-- What it takes for a file of a result directory to become an artifact.
use pitlane_agent.Common.{
  ℕ, zero, suc, ◌+◌, String, ◌≡◌, refl, ◌⊎◌, inl, inr, Option, some, true, false, arith,
  Option-cases, Bool-cases, eq_iff, leb,
}
use pitlane_agent.Common.Dict.{lookup, lookup-insert}
use pitlane_agent.Spool.Types.{Library, Look, Spool}
use pitlane_agent.Spool.Scans.{
  ResultFile, Stat, Scan, scan_file, scan_stat, take_up, is_known, is_stable, look_count, in_window,
  read_result,
}

-- What it took for a file to become an artifact.
pub record Taken (lib : Library) (cutoff : Option ℕ) (f : ResultFile) (c : Scan) : Type 0 where
  pub stat : Stat
  pub raw : String
  pub seen : f.stat ≡ some stat
  pub unknown : is_known c.launch f.name ≡ false
  pub inside : in_window c.launch cutoff stat ≡ true
  pub stable : (is_stable f.path stat c.spool).1 ≡ true
  pub valid : read_result lib f ≡ some raw
  pub result :
      scan_file lib cutoff f c
      ≡ take_up lib f stat raw (record c { spool = (is_stable f.path stat c.spool).0 })

-- A file is taken up only if the launch does not know its name, it was changed within the launch's
-- window, it has looked the same often enough, and it holds a JSON object; else the launch and its
-- artifacts, and what the spool holds of the launches, stay as they are.
pub scan_file_takes :
    (lib : Library) (cutoff : Option ℕ) (f : ResultFile) (c : Scan)
    → ((scan_file lib cutoff f c).launch ≡ c.launch)
        × ((scan_file lib cutoff f c).created ≡ c.created)
        × ((scan_file lib cutoff f c).spool.launches ≡ c.spool.launches)
      ⊎ Taken lib cutoff f c
unfolding scan_file scan_stat is_stable
scan_file_takes lib cutoff f c = elim (Bool-cases (is_known c.launch f.name)) [
  | inl known ↦ inl (rw (known, scan_file) (refl, refl, refl))
  | inr new ↦ elim (Option-cases f.stat) [
    | inl n ↦ inl (rw (new, n, scan_file) (refl, refl, refl))
    | inr (st, p) ↦ elim (Bool-cases (in_window c.launch cutoff st)) [
      | inr out ↦ inl (rw (new, p, scan_file, scan_stat, out) (refl, refl, refl))
      | inl inside ↦ elim (Bool-cases (is_stable f.path st c.spool).1) [
        | inr moving ↦ inl (rw (new, p, scan_file, scan_stat, inside, moving) (refl, refl, refl))
        | inl still ↦ elim (Option-cases (read_result lib f)) [
          | inl n ↦ inl (rw (new, p, scan_file, scan_stat, inside, still, n) (refl, refl, refl))
          | inr (raw, e) ↦ inr (record {
            stat = st;
            raw = raw;
            seen = p;
            unknown = new;
            inside = inside;
            stable = still;
            valid = e;
            result = rw (new, p, scan_file, scan_stat, inside, still, e) refl;
          })
        ]
      ]
    ]
  ]
]

-- The looks at a file that does not change.
unfoldable pub look_times : ℕ → String → Stat → Spool → Spool
unfolding is_stable
look_times zero path st s = s
look_times (suc n) path st s = (is_stable path st (look_times n path st s)).0

look_times-count :
    (n : ℕ) (path : String) (st : Stat) (s : Spool)
    → (look_count (lookup path s.candidates) st ≡ 1)
    → (look_count (lookup path (look_times n path st s).candidates) st ≡ n + 1)
      × ((look_times n path st s).stable_scans ≡ s.stable_scans)
unfolding look_times is_stable
look_times-count zero path st s h = (omega (arith, h), refl)
look_times-count (suc n) path st s h =
    let (x, y) = look_times-count n path st s h in
    let t = look_times n path st s in
    let k : Look = record {
      size = st.size;
      mtime = st.mtime;
      count = look_count (lookup path t.candidates) st;
    } in
    (ground (arith, x, lookup-insert path path k t.candidates, eq_iff path path), y)

-- A file that was not seen with its present size and time becomes stable exactly when it has looked
-- the same as often as the spool asks for.
pub is_stable-look_times :
    (n : ℕ) (path : String) (st : Stat) (s : Spool)
    → look_count (lookup path s.candidates) st ≡ 1
    → (is_stable path st (look_times n path st s)).1 ≡ leb s.stable_scans (n + 1)
unfolding is_stable
is_stable-look_times n path st s h = ground (arith, look_times-count n path st s h)
