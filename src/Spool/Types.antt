-- ===== src/Spool/Types.antt =====
-- agent/services/result_artifact_spool.py: the manifests of the spool, and what the spool holds. Instants
-- and delays are nanoseconds. A manifest file that holds no JSON object counts as absent.
use Prim.Native.Char.{code}
use Prim.Native.String.{[] as nil, ◌∷◌ as ◌⊳◌}
use pitlane_agent.Common.{
  ℕ, String, Option, none, some, Bool, true, false, List, ◌&&◌, ◌||◌, ◌==◌, str_eq, if◌then◌else◌,
  any,
}
use pitlane_agent.Common.Int.{ℤ}
use pitlane_agent.Common.Dict.{Dict}
use pitlane_agent.Common.Text.{strip}
use pitlane_agent.Journal.Contract.{Python}

-- What the spool calls: `Path(s).name`, `uuid5` in its namespace, `utf-8-sig` (`none` for UnicodeError),
-- the ISO text of an instant, `str.lower`, `urlsplit` as scheme and netloc.
pub record Library : Type 0 where
  pub python : Python
  pub path_name : String → String
  pub artifact_uuid : String → String
  pub decode : String → Option String
  pub utc_iso : ℕ → String
  pub lower : String → String
  pub url_split : String → String × String

abbrev pub second : ℕ
second = 1000000000

pub data Status : Type 0 where
  pending delivered purged : Status

abbrev pub status_eq : Status → Status → Bool
status_eq pending pending = true
status_eq delivered delivered = true
status_eq purged purged = true
status_eq _ _ = false

pub record Artifact : Type 0 where
  pub artifact_id : String
  pub instance_id : String
  pub launch_id : ℕ
  pub result_correlation_id : String
  pub filename : String
  pub sha256 : String
  pub size : ℕ
  pub created_at : String
  pub session_type_hint : Option String
  pub upload_url : String
  pub status : Status
  pub attempts : ℕ
  pub next_attempt_at : ℕ
  pub last_error : Option String
  pub delivered_at : Option String
  pub response_status : Option ℤ
  pub purged_at : Option String
  pub notified_hubs : List String

pub record Launch : Type 0 where
  pub instance_id : String
  pub launch_id : ℕ
  pub result_correlation_id : String
  pub upload_url : String
  pub results_path : String
  pub registered_at : ℕ
  pub baseline_files : List String
  pub observed_files : List String
  pub closed_at : Option ℕ

-- What `_candidates` holds of a file.
pub record Look : Type 0 where
  pub size : ℕ
  pub mtime : ℕ
  pub count : ℕ

-- `launches` and `artifacts` are the manifests by the name of their file, `files` the copies by the
-- artifact's id.
pub record Spool : Type 0 where
  pub stable_scans : ℕ
  pub candidates : Dict Look
  pub launches : Dict Launch
  pub artifacts : Dict Artifact
  pub files : Dict String

-- `x in xs`.
abbrev pub has : String → List String → Bool
has x = any (str_eq x)

-- `t.startswith(s)`.
unfoldable pub starts_with : String → String → Bool
starts_with nil t = true
starts_with (c ⊳ s) nil = false
starts_with (c ⊳ s) (d ⊳ t) = code c == code d && starts_with s t

-- `s in t`.
unfoldable pub contains : String → String → Bool
unfolding starts_with
contains s nil = starts_with s nil
contains s (c ⊳ t) = starts_with s (c ⊳ t) || contains s t

-- `_session_type_hint`.
unfoldable pub session_type_hint : Library → String → Option String
unfolding contains
session_type_hint lib filename =
    let name = lib.lower filename in
    if contains "_practice." name
    then some "PRACTICE"
    else if contains "_qualify." name
    then some "QUALIFYING"
    else if contains "_qualifying." name
    then some "QUALIFYING"
    else if contains "_warmup." name
    then some "WARMUP"
    else if contains "_race." name
    then some "RACE"
    else none

-- `_url_origin`.
unfoldable pub url_origin : Library → String → Option (String × String)
unfolding strip
url_origin lib value =
    let (scheme, netloc) = lib.url_split (strip value) in
    if str_eq scheme "" || str_eq netloc "" then none else some (lib.lower scheme, lib.lower netloc)
