-- ===== src/Telemetry/Observer.antt =====
-- agent/services/player_count_observer.py, `PlayerCountObserver`: the reading of a log, and the state
-- of each instance.
use Prim.Native.String.{◌++◌ as ◌+++◌}
use pitlane_agent.Common.{
  ℕ, String, Option, none, some, Bool, true, false, ◌&&◌, if◌then◌else◌, ltb, ◌==◌, str_eq,
}
use pitlane_agent.Common.Dict.{Dict, lookup, insert, remove}
use pitlane_agent.Telemetry.Log.{Patterns, LogState, init, see_lines}
use pitlane_agent.Telemetry.Lines.{split_lines, pop_unfinished}

-- A log file: its size, and what reading it from a position gives, the text and the position after
-- it, where no OSError is raised.
pub record LogFile : Type 0 where
  pub size : ℕ
  pub read_from : ℕ → Option (String × ℕ)

-- The file was cut: everything starts again, but the log is no longer seen from its start.
unfoldable pub check_truncation : LogFile → LogState → LogState
check_truncation f s = if ltb f.size s.offset then init false else s

-- What was read joins the unfinished line; nothing changes where the file cannot be read.
unfoldable pub see_appended : Patterns → LogState → Option (String × ℕ) → LogState
unfolding split_lines pop_unfinished see_lines
see_appended p s none = s
see_appended p s (some (appended, tell)) =
    let (lines, buffer) = pop_unfinished (split_lines (s.buffer +++ appended)) in
    see_lines p lines (record s { offset = tell; buffer = buffer })

-- `stat` raises where there is no file.
unfoldable pub read_appended_lines : Patterns → Option LogFile → LogState → LogState
unfolding check_truncation see_appended
read_appended_lines p none s = s
read_appended_lines p (some f) s =
    let s' = check_truncation f s in see_appended p s' (f.read_from s'.offset)

-- What a process is known by: the path of its log, its pid, the time it began.
pub record Identity : Type 0 where
  pub log_path : String
  pub pid : Option ℕ
  pub started_at : Option String

abbrev pub pid_eq : Option ℕ → Option ℕ → Bool
pid_eq none none = true
pid_eq (some m) (some n) = m == n
pid_eq none (some n) = false
pid_eq (some m) none = false

abbrev pub text_eq : Option String → Option String → Bool
text_eq none none = true
text_eq (some s) (some t) = str_eq s t
text_eq none (some t) = false
text_eq (some s) none = false

unfoldable pub same_process : Identity → Identity → Bool
same_process a b =
    str_eq a.log_path b.log_path && pid_eq a.pid b.pid && text_eq a.started_at b.started_at

abbrev pub States : Type 0
States = Dict (Identity × LogState)

-- The state of an instance, a new one where it has none or is of another process.
unfoldable pub state_of : String → Identity → States → LogState
unfolding lookup same_process
state_of id process states = elim (lookup id states) [
  | none ↦ init true
  | some (known, s) ↦ if same_process known process then s else init true
]

-- The answer is the state, less its offset and its buffer. `path` is the identity where a log was
-- found; with none the answer is empty and nothing changes.
unfoldable pub observe_log :
    Patterns → String → Option Identity → Option LogFile → States → States × LogState
unfolding state_of read_appended_lines insert
observe_log p id none file states = (states, init false)
observe_log p id (some process) file states =
    let s = read_appended_lines p file (state_of id process states) in
    (insert id (process, s) states, s)

unfoldable pub forget : String → States → States
unfolding remove
forget id states = remove id states
