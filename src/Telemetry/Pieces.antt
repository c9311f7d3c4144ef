-- ===== src/Telemetry/Pieces.antt =====
-- A log that is read in pieces: agent/services/player_count_observer.py, `_read_appended_lines`.
use Prim.Native.String.{◌++◌ as ◌+++◌}
use pitlane_agent.Common.{ℕ, String, ◌≡◌, some, List, [], ◌∷◌, ◌++◌}
use pitlane_agent.Telemetry.Log.{Patterns, LogState, see_lines}
use pitlane_agent.Telemetry.Lines.{concat}
use pitlane_agent.Telemetry.Observer.{see_appended}

-- Another offset and another unfinished line.
abbrev pub moved : ℕ → String → LogState → LogState
moved offset buffer s = record s { offset = offset; buffer = buffer }

-- The readings of a log that is not cut: what was appended, and the position after it.
unfoldable pub see_pieces : Patterns → List (String × ℕ) → LogState → LogState
unfolding see_appended
see_pieces p [] s = s
see_pieces p (piece ∷ pieces) s = see_pieces p pieces (see_appended p s (some piece))

abbrev pub text_of : List (String × ℕ) → String
text_of [] = ""
text_of ((appended, tell) ∷ pieces) = appended +++ text_of pieces

abbrev pub end_of : ℕ → List (String × ℕ) → ℕ
end_of offset [] = offset
end_of offset ((appended, tell) ∷ pieces) = end_of tell pieces

-- What has been read: lines, seen one after the other, and an unfinished one.
pub record IsRead (p : Patterns) (s : LogState) (whole : String) (offset : ℕ) (t : LogState)
    : Type 0 where
  pub lines : List String
  pub seen : t ≡ see_lines p lines (record s { offset = offset; buffer = t.buffer })
  pub complete : concat lines +++ t.buffer ≡ whole
