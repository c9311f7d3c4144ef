-- ===== src/Telemetry/Log.antt =====
-- agent/services/player_count_observer.py: what a line of the game's log says.
use Prim.Native.String.{[] as nil, ◌∷◌ as ◌⊳◌}
use pitlane_agent.Common.{
  ℕ, zero, suc, ◌+◌, ◌-◌, String, Option, none, some, Bool, false, List, [], ◌∷◌, ◌&&◌, not,
  if◌then◌else◌, ltb, str_eq,
}
use pitlane_agent.Common.Text.{is_empty, len, strip}

-- The regular expressions of the module, each with the groups it reads, `strptime` with the
-- conversion to UTC, and `str.lower`.
pub record Patterns : Type 0 where
  pub player_count : String → Option (ℕ × String)
  pub session_created : String → Option String
  pub timed_session_started : String → Bool
  pub race_started : String → Bool
  pub season_restart : String → Bool
  pub crash : String → Bool
  pub timestamp : String → Option String
  pub utc_iso : String → String
  pub lower : String → String

pub record LogState : Type 0 where
  pub offset : ℕ
  pub buffer : String
  pub count : Option ℕ
  pub observed_at : Option String
  pub first_driver_seen_at : Option String
  pub session_phase : Option String
  pub session_observed_at : Option String
  pub sport_started_at : Option String
  pub race_started_at : Option String
  pub season_restart_count : ℕ
  pub season_restart_observed_at : Option String
  pub crash_detected_at : Option String
  pub crash_message : Option String
  pub log_observed_from_start : Bool

abbrev pub init : Bool → LogState
init from_start = record {
  offset = 0;
  buffer = "";
  count = none;
  observed_at = none;
  first_driver_seen_at = none;
  session_phase = none;
  session_observed_at = none;
  sport_started_at = none;
  race_started_at = none;
  season_restart_count = 0;
  season_restart_observed_at = none;
  crash_detected_at = none;
  crash_message = none;
  log_observed_from_start = from_start;
}

-- The truth of a text that may be `None`, and `a or b`.
abbrev pub is_set : Option String → Bool
is_set none = false
is_set (some s) = not (is_empty s)

abbrev pub or_else : Option String → Option String → Option String
or_else a b = if is_set a then a else b

unfoldable pub line_timestamp : Patterns → String → Option String
line_timestamp p line = elim (p.timestamp line) [ none ↦ none | some t ↦ some (p.utc_iso t) ]

unfoldable pub normalize_phase : Patterns → String → String
unfolding strip
normalize_phase p value =
    let normalized = p.lower (strip value) in
    if str_eq normalized "qualify"
    then "qualifying"
    else if str_eq normalized "qualification"
    then "qualifying"
    else normalized

abbrev pub phase_is : String → Option String → Bool
phase_is name none = false
phase_is name (some phase) = str_eq phase name

unfoldable pub see_players : Patterns → String → LogState → LogState
see_players p line s = elim (p.player_count line) [
  | none ↦ s
  | some (n, t) ↦
      let seen = record s { count = some n; observed_at = some (p.utc_iso t) } in
      elim s.first_driver_seen_at [
        | none ↦ if ltb 0 n then record seen { first_driver_seen_at = some (p.utc_iso t) } else seen
        | some first ↦ seen
      ]
]

unfoldable pub see_session : Patterns → String → LogState → LogState
unfolding line_timestamp normalize_phase
see_session p line s = elim (p.session_created line) [
  | none ↦ s
  | some phase ↦ record s {
    session_phase = some (normalize_phase p phase);
    session_observed_at = line_timestamp p line;
  }
]

unfoldable pub see_timed_start : Patterns → String → LogState → LogState
unfolding line_timestamp
see_timed_start p line s =
    if p.timed_session_started line && phase_is "qualifying" s.session_phase
    then record s { sport_started_at = or_else s.sport_started_at (line_timestamp p line) }
    else s

unfoldable pub see_race_start : Patterns → String → LogState → LogState
unfolding line_timestamp
see_race_start p line s =
    if p.race_started line && phase_is "race" s.session_phase
    then record s {
      sport_started_at = or_else s.sport_started_at (line_timestamp p line);
      race_started_at = or_else s.race_started_at (line_timestamp p line);
    }
    else s

unfoldable pub see_restart : Patterns → String → LogState → LogState
unfolding line_timestamp
see_restart p line s =
    if p.season_restart line
    then record s {
      season_restart_count = s.season_restart_count + 1;
      season_restart_observed_at = line_timestamp p line;
    }
    else s

-- `s[n:]`.
unfoldable pub drop_text : ℕ → String → String
drop_text zero s = s
drop_text (suc n) nil = nil
drop_text (suc n) (c ⊳ s) = drop_text n s

unfoldable pub see_crash : Patterns → String → LogState → LogState
unfolding line_timestamp drop_text
see_crash p line s =
    if p.crash line
    then record s {
      crash_detected_at = line_timestamp p line;
      crash_message = some (drop_text (len line - 500) line);
    }
    else s

-- The body of the loop, on the line without its white space.
unfoldable pub see_line : Patterns → LogState → String → LogState
unfolding see_players see_session see_timed_start see_race_start see_restart see_crash strip
see_line p s line =
    let l = strip line in
    see_crash p l (
      see_restart p l
        (see_race_start p l (see_timed_start p l (see_session p l (see_players p l s)))))

unfoldable pub see_lines : Patterns → List String → LogState → LogState
unfolding see_line
see_lines p [] s = s
see_lines p (line ∷ lines) s = see_lines p lines (see_line p s line)
