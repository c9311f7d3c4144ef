-- ===== src/Spool/Pipeline.antt =====
-- agent/services/result_pipeline.py: one round of the upload of results.
use pitlane_agent.Common.{
  ℕ, ◌+◌, String, none, some, Bool, List, [], ◌∷◌, ◌&&◌, leb, ltb, ◌==◌, str_eq, if◌then◌else◌,
  length,
}
use pitlane_agent.Common.Int.{pos}
use pitlane_agent.Common.Dict.{lookup}
use pitlane_agent.Common.Text.{len}
use pitlane_agent.Spool.Types.{Library, Artifact, Spool}
use pitlane_agent.Spool.Deliveries.{mark_delivered, mark_failed, due}
use pitlane_agent.Spool.Scans.{Directories, scan_once}

-- What the HTTP request does: it is answered with a status, or an exception with a text is raised.
pub data Answer : Type 0 where
  answered : ℕ → Answer
  unreachable : String → Answer

-- What the pipeline is given: the server's answer to an artifact's bytes, and the texts of its own errors.
pub record Server : Type 0 where
  pub post : Artifact → String → Answer
  pub missing_copy : String
  pub corrupt_copy : String
  pub http_error : ℕ → String

pub data Upload : Type 0 where
  accepted : ℕ → Upload
  raised : String → Upload

-- The copy is the one that was taken up.
unfoldable pub is_intact : Library → Artifact → String → Bool
is_intact lib a raw = len raw == a.size && str_eq (lib.python.sha256 raw) a.sha256

abbrev pub read_answer : Server → Answer → Upload
read_answer server (unreachable message) = raised message
read_answer server (answered status) =
    if leb 200 status && ltb status 300 then accepted status else raised (server.http_error status)

-- `_upload`.
unfoldable pub upload : Library → Server → Artifact → Spool → Upload
unfolding is_intact lookup
upload lib server a s = elim (lookup a.artifact_id s.files) [
  | none ↦ raised server.missing_copy
  | some raw ↦
      if is_intact lib a raw
      then read_answer server (server.post a raw)
      else raised server.corrupt_copy
]

abbrev pub settle : Library → ℕ → Artifact → Upload → Spool → Spool
settle lib now a (accepted status) s = mark_delivered lib now a.artifact_id (pos status) s
settle lib now a (raised message) s = mark_failed lib now a.artifact_id message s

abbrev pub count : Upload → ℕ
count (accepted status) = 1
count (raised message) = 0

-- The artifacts one after the other; the second part counts the delivered ones.
unfoldable pub deliver_all : Library → Server → ℕ → List Artifact → Spool → Spool × ℕ
unfolding upload
deliver_all lib server now [] s = (s, 0)
deliver_all lib server now (a ∷ rest) s =
    let u = upload lib server a s in
    let others = deliver_all lib server now rest (settle lib now a u s) in
    (others.0, count u + others.1)

unfoldable pub run_once : Library → Server → Directories → ℕ → Spool → Spool × ℕ × ℕ
unfolding scan_once deliver_all due
run_once lib server dirs now s =
    let scanned = scan_once lib dirs s in
    let r = deliver_all lib server now (due now scanned.0) scanned.0 in (r.0, length scanned.1, r.1)
