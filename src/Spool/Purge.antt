-- ===== src/Spool/Purge.antt =====
-- `purge_delivered`.
use pitlane_agent.Common.{
  ℕ, suc, ◌+◌, String, Option, none, some, Bool, true, false, List, [], ◌∷◌, ◌&&◌, not, ltb, str_eq,
  if◌then◌else◌, map, select, length,
}
use pitlane_agent.Common.Dict.{lookup, insert, remove}
use pitlane_agent.Common.Text.{strip, is_empty, len}
use pitlane_agent.Spool.Types.{Library, delivered, purged, status_eq, Artifact, Spool, has}
use pitlane_agent.Spool.Deliveries.{artifact, is_text}

-- What the purge is given: the instance, if any; whether it is executed; the time; whether a copy
-- can be deleted (OSError where not).
pub record Order : Type 0 where
  pub instance_id : Option String
  pub execute : Bool
  pub now : ℕ
  pub unlinks : String → Bool

pub record Summary : Type 0 where
  pub dry_run : Bool
  pub requested : ℕ
  pub eligible : ℕ
  pub purged_count : ℕ
  pub bytes : ℕ
  pub missing_files : ℕ
  pub protected : ℕ
  pub not_found : ℕ

pub data Purged : Type 0 where
  done : Summary → Purged
  too_many : Purged
  cannot_delete : String → Purged

abbrev pub is_practice : Option String → Bool
is_practice none = false
is_practice (some hint) = if str_eq hint "PRACTICE" then true else str_eq hint "WARMUP"

-- The instance is the one asked for, the artifact is delivered, and the session does not count.
unfoldable pub is_purgeable : Option String → Artifact → Bool
is_purgeable instance a =
    is_text instance a.instance_id
    && status_eq a.status delivered
    && is_practice a.session_type_hint

abbrev pub set_purged : String → Artifact → Artifact
set_purged now a = record a {
  status = purged;
  purged_at = some now;
  last_error = none;
  next_attempt_at = 0;
}

abbrev pub count_eligible : Option String → Summary → Summary
count_eligible none m = record m { eligible = suc m.eligible; missing_files = suc m.missing_files }
count_eligible (some raw) m = record m { eligible = suc m.eligible; bytes = m.bytes + len raw }

-- An id whose artifact may be purged. The Boolean is `false` where the copy cannot be deleted.
unfoldable pub purge_eligible :
    Library → Order → String → Artifact → Spool → Summary → Spool × Summary × Bool
unfolding lookup insert remove
purge_eligible lib o id a s m =
    let copy = lookup a.artifact_id s.files in
    let m' = count_eligible copy m in
    let done = record m' { purged_count = suc m'.purged_count } in
    let artifacts = insert (lib.path_name id) (set_purged (lib.utc_iso o.now) a) s.artifacts in
    if not o.execute then (s, m', true) else elim copy [
      | none ↦ (record s { artifacts = artifacts }, done, true)
      | some raw ↦
          if o.unlinks a.artifact_id
          then (
            record s { artifacts = artifacts; files = remove a.artifact_id s.files },
            done,
            true,
          )
          else (s, m', false)
    ]

unfoldable pub purge_one : Library → Order → String → Spool → Summary → Spool × Summary × Bool
unfolding artifact is_purgeable purge_eligible
purge_one lib o id s m = elim (artifact lib id s) [
  | none ↦ (s, record m { not_found = suc m.not_found }, true)
  | some a ↦
      if is_purgeable o.instance_id a
      then purge_eligible lib o id a s m
      else (s, record m { protected = suc m.protected }, true)
]

unfoldable pub purge_ids : Library → Order → List String → Spool → Summary → Spool × Purged
unfolding purge_one
purge_ids lib o [] s m = (s, done m)
purge_ids lib o (id ∷ ids) s m =
    let r = purge_one lib o id s m in
    let rest = purge_ids lib o ids r.0 r.1 in if r.2 then rest else (r.0, cannot_delete id)

-- `dict.fromkeys`: each text once, in the order of the first ones.
unfoldable pub unique : List String → List String → List String
unique seen [] = []
unique seen (x ∷ xs) =
    let rest = unique (x ∷ seen) xs in if has x seen then unique seen xs else x ∷ rest

unfoldable pub requested_ids : List String → List String
unfolding unique strip
requested_ids ids = unique [] (select (λ x. not (is_empty x)) (map strip ids))

unfoldable pub purge_delivered : Library → Order → List String → Spool → Spool × Purged
unfolding purge_ids requested_ids
purge_delivered lib o artifact_ids s =
    let ids = requested_ids artifact_ids in
    if ltb 1000 (length ids)
    then (s, too_many)
    else purge_ids lib o ids s (record {
      dry_run = not o.execute;
      requested = length ids;
      eligible = 0;
      purged_count = 0;
      bytes = 0;
      missing_files = 0;
      protected = 0;
      not_found = 0;
    })
