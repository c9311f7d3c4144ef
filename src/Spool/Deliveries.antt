-- ===== src/Spool/Deliveries.antt =====
-- agent/services/result_artifact_spool.py: what happens to an artifact after it was taken up.
use pitlane_agent.Common.{
  ℕ, ◌+◌, ◌*◌, ◌/◌, ◌^◌, min, String, Option, none, some, Bool, true, false, List, [], ◌∷◌, ◌++◌,
  ◌&&◌, not, leb, ltb, ◌==◌, str_eq, if◌then◌else◌, map, select, order_by, length, insert_by,
}
use pitlane_agent.Common.Int.{ℤ}
use pitlane_agent.Common.Dict.{lookup, insert}
use pitlane_agent.Common.Text.{take_text, is_empty}
use pitlane_agent.Spool.Types.{
  Library, pending, delivered, purged, status_eq, Artifact, Spool, has, second, url_origin,
}

-- `_artifact`.
unfoldable pub artifact : Library → String → Spool → Option Artifact
unfolding lookup
artifact lib id s = lookup (lib.path_name id) s.artifacts

-- An update of the manifest of an artifact, where there is one.
unfoldable pub update_artifact : Library → String → (Artifact → Artifact) → Spool → Spool
unfolding artifact insert
update_artifact lib id f s = elim (artifact lib id s) [
  | none ↦ s
  | some a ↦ record s { artifacts = insert (lib.path_name id) (f a) s.artifacts }
]

abbrev pub set_delivered : String → ℤ → Artifact → Artifact
set_delivered now response a = record a {
  status = delivered;
  delivered_at = some now;
  response_status = some response;
  last_error = none;
  next_attempt_at = 0;
}

unfoldable pub mark_delivered : Library → ℕ → String → ℤ → Spool → Spool
unfolding update_artifact
mark_delivered lib now id response =
    update_artifact lib id (set_delivered (lib.utc_iso now) response)

-- The delay after so many attempts.
unfoldable pub retry_delay : ℕ → ℕ
retry_delay attempts = min (2 ^ min attempts 8) 300 * second

abbrev pub set_failed : String → ℕ → Artifact → Artifact
set_failed error now a = record a {
  status = pending;
  attempts = a.attempts + 1;
  last_error = some (take_text 500 error);
  next_attempt_at = now + retry_delay (a.attempts + 1);
}

unfoldable pub mark_failed : Library → ℕ → String → String → Spool → Spool
unfolding update_artifact
mark_failed lib now id error = update_artifact lib id (set_failed error now)

abbrev pub is_due : ℕ → Artifact → Bool
is_due now a = status_eq a.status pending && leb a.next_attempt_at now

-- The manifests in the order of their file names.
unfoldable pub manifests : Spool → List Artifact
manifests s = map (λ e. e.1) (order_by (λ e. e.0) s.artifacts)

-- `pending`.
unfoldable pub due : ℕ → Spool → List Artifact
unfolding manifests
due now s = select (is_due now) (manifests s)

-- The three optional filters of `resync` and `inventory`.
pub record Scope : Type 0 where
  pub instance_id : Option String
  pub launch_id : Option ℕ
  pub result_correlation_id : Option String

abbrev pub is_text : Option String → String → Bool
is_text none s = true
is_text (some t) s = str_eq s t

abbrev pub is_number : Option ℕ → ℕ → Bool
is_number none n = true
is_number (some m) n = n == m

unfoldable pub in_scope : Scope → Artifact → Bool
in_scope f a =
    is_text f.instance_id a.instance_id
    && is_number f.launch_id a.launch_id
    && is_text f.result_correlation_id a.result_correlation_id

abbrev pub requeue : Artifact → Artifact
requeue a = record a { status = pending; next_attempt_at = 0; last_error = none }

unfoldable pub resync_entry : Scope → String × Artifact → String × Artifact
unfolding in_scope
resync_entry f (k, a) = (k, if in_scope f a && status_eq a.status delivered then requeue a else a)

-- The part of `resync` below the scan: the new spool, and the counts of artifacts in scope and of
-- those that were put back.
unfoldable pub resync_artifacts : Scope → Spool → Spool × ℕ × ℕ
unfolding resync_entry
resync_artifacts f s =
    let chosen = select (in_scope f) (map (λ e. e.1) s.artifacts) in
    (
      record s { artifacts = map (resync_entry f) s.artifacts },
      length chosen,
      length (select (λ a. status_eq a.status delivered) chosen),
    )

unfoldable pub inventory : Scope → Spool → List Artifact
unfolding manifests
inventory f s = select (in_scope f) (manifests s)

-- `sorted(set(xs) | {x})`, for a sorted list without repetitions.
unfoldable pub add_text : String → List String → List String
add_text x xs = if has x xs then xs else insert_by (λ y. y) x xs

unfoldable pub mark_notified : Library → String → String → Spool → Spool
unfolding update_artifact add_text
mark_notified lib id hub =
    update_artifact lib id (λ a. record a { notified_hubs = add_text hub a.notified_hubs })

abbrev pub same_origin : Option (String × String) → Option (String × String) → Bool
same_origin none o = true
same_origin (some e) none = false
same_origin (some (s, n)) (some (t, m)) = str_eq s t && str_eq n m

unfoldable pub is_candidate : Library → String → Option String → Artifact → Bool
unfolding url_origin
is_candidate lib hub base a =
    let expected : Option (String × String) = elim base [
      | none ↦ none
      | some url ↦ if is_empty url then none else url_origin lib url
    ] in
    not (status_eq a.status purged)
    && not (has hub a.notified_hubs)
    && same_origin expected (url_origin lib a.upload_url)

unfoldable pub notification_candidates : Library → String → Option String → Spool → List Artifact
unfolding manifests is_candidate
notification_candidates lib hub base s = select (is_candidate lib hub base) (manifests s)

-- What `storage_usage` measures of the disk; `none` where an OSError is raised.
pub data Health : Type 0 where
  healthy warning critical : Health

pub record Usage : Type 0 where
  pub status : Health
  pub reasons : List String

abbrev pub spool_reasons : ℕ → ℕ → List String × List String
spool_reasons max_bytes total =
    if ltb 0 max_bytes && leb max_bytes total
    then ("result_spool_limit_reached" ∷ [], [])
    else if ltb 0 max_bytes && leb (max_bytes * 8 / 10) total
    then ([], "result_spool_near_limit" ∷ [])
    else ([], [])

abbrev pub disk_reasons : ℕ → Option ℕ → List String × List String
disk_reasons minimum none = ([], [])
disk_reasons minimum (some free) =
    if leb free minimum
    then ("disk_free_space_below_minimum" ∷ [], [])
    else if leb free (minimum * 2)
    then ([], "disk_free_space_near_minimum" ∷ [])
    else ([], [])

-- `total_bytes` is the size of the files of the three directories, `disk_free` the free space of the
-- disk (`none` for OSError).
unfoldable pub storage_usage : ℕ → Option ℕ → ℕ → ℕ → Usage
storage_usage total_bytes disk_free max_bytes minimum_free_bytes =
    let a = spool_reasons max_bytes total_bytes in
    let b = disk_reasons minimum_free_bytes disk_free in
    record {
      status = elim (a.0 ++ b.0) [
        | _ ∷ _ ↦ critical
        | [] ↦ elim (a.1 ++ b.1) [ _ ∷ _ ↦ warning | [] ↦ healthy ]
      ];
      reasons = (a.0 ++ b.0) ++ (a.1 ++ b.1);
    }
