-- ===== src/Telemetry/Facts.antt =====
-- `PlayerCountObserver`: the facts that the log has shown, and how they grow with it.
use Prim.Native.String.{◌++◌ as ◌+++◌}
use pitlane_agent.Common.{
  ℕ, ◌+◌, String, ◌≡◌, refl, ap, ◌∙◌, Option, none, some, Bool, true, false, List, [], ◌∷◌, ◌||◌,
  not, arith, if◌then◌else◌,
}
use pitlane_agent.Common.Text.{strip}
use pitlane_agent.Common.Dict.{lookup}
use pitlane_agent.Telemetry.Log.{
  Patterns, LogState, init, is_set, see_players, see_session, see_timed_start, see_race_start,
  see_restart, see_crash, see_line, see_lines,
}
use pitlane_agent.Telemetry.Lines.{split_lines, pop_unfinished}
use pitlane_agent.Telemetry.Observer.{
  LogFile, check_truncation, see_appended, read_appended_lines, Identity, same_process, States,
  state_of, observe_log,
}

-- The restarts among some lines.
unfoldable pub count_restarts : Patterns → List String → ℕ
unfolding strip
count_restarts p [] = 0
count_restarts p (line ∷ lines) =
    (if p.season_restart (strip line) then 1 else 0) + count_restarts p lines

-- What a line leaves of the facts: the count, where it is no restart, and the moments already seen.
count_of_line :
    (p : Patterns) (s : LogState) (line : String)
    → (see_line p s line).season_restart_count ≡ (
        if p.season_restart (strip line)
        then s.season_restart_count + 1
        else s.season_restart_count)
unfolding see_line see_players see_session see_timed_start see_race_start see_restart see_crash
count_of_line p s line = ground arith

-- The restart count grows by the number of lines that announce a restart.
pub see_lines-season_restart_count :
    (p : Patterns) (lines : List String) (s : LogState)
    → (see_lines p lines s).season_restart_count ≡ s.season_restart_count + count_restarts p lines
unfolding see_lines count_restarts
see_lines-season_restart_count p [] s = omega arith
see_lines-season_restart_count p (line ∷ lines) s =
    ground
      (arith, count_of_line p s line, see_lines-season_restart_count p lines (see_line p s line))

sport_kept :
    (p : Patterns) (s : LogState) (line : String)
    → is_set s.sport_started_at ≡ true
    → (see_line p s line).sport_started_at ≡ s.sport_started_at
unfolding see_line see_players see_session see_timed_start see_race_start see_restart see_crash
sport_kept p s line h = ground (arith, h)

race_kept :
    (p : Patterns) (s : LogState) (line : String)
    → is_set s.race_started_at ≡ true
    → (see_line p s line).race_started_at ≡ s.race_started_at
unfolding see_line see_players see_session see_timed_start see_race_start see_restart see_crash
race_kept p s line h = ground (arith, h)

-- No race has begun without the competition having begun.
abbrev pub race_is_sport : LogState → Bool
race_is_sport s = not (is_set s.race_started_at) || is_set s.sport_started_at

by_players :
    (p : Patterns) (l : String) (s : LogState) → race_is_sport (see_players p l s) ≡ race_is_sport s
unfolding see_players
by_players p l s = ground arith

by_session :
    (p : Patterns) (l : String) (s : LogState) → race_is_sport (see_session p l s) ≡ race_is_sport s
unfolding see_session
by_session p l s = ground arith

by_timed_start :
    (p : Patterns) (l : String) (s : LogState)
    → race_is_sport s ≡ true
    → race_is_sport (see_timed_start p l s) ≡ true
unfolding see_timed_start
by_timed_start p l s h = ground (arith, h)

by_race_start :
    (p : Patterns) (l : String) (s : LogState)
    → race_is_sport s ≡ true
    → race_is_sport (see_race_start p l s) ≡ true
unfolding see_race_start
by_race_start p l s h = ground (arith, h)

by_restart :
    (p : Patterns) (l : String) (s : LogState) → race_is_sport (see_restart p l s) ≡ race_is_sport s
unfolding see_restart
by_restart p l s = ground arith

by_crash :
    (p : Patterns) (l : String) (s : LogState) → race_is_sport (see_crash p l s) ≡ race_is_sport s
unfolding see_crash
by_crash p l s = ground arith

by_line :
    (p : Patterns) (s : LogState) (line : String)
    → race_is_sport s ≡ true
    → race_is_sport (see_line p s line) ≡ true
unfolding see_line
by_line p s line h =
    let l = strip line in
    let s₁ = see_players p l s in
    let s₂ = see_session p l s₁ in
    let s₃ = see_timed_start p l s₂ in
    let s₄ = see_race_start p l s₃ in
    by_crash p l (see_restart p l s₄)
    ∙ by_restart p l s₄
    ∙ by_race_start p l s₃ (by_timed_start p l s₂ (by_session p l s₁ ∙ by_players p l s ∙ h))

by_lines :
    (p : Patterns) (lines : List String) (s : LogState)
    → race_is_sport s ≡ true
    → race_is_sport (see_lines p lines s) ≡ true
unfolding see_lines
by_lines p [] s h = h
by_lines p (line ∷ lines) s h = by_lines p lines (see_line p s line) (by_line p s line h)

by_truncation :
    (f : LogFile) (s : LogState)
    → race_is_sport s ≡ true
    → race_is_sport (check_truncation f s) ≡ true
unfolding check_truncation
by_truncation f s h = ground (arith, h)

by_appended :
    (p : Patterns) (s : LogState) (r : Option (String × ℕ))
    → race_is_sport s ≡ true
    → race_is_sport (see_appended p s r) ≡ true
unfolding see_appended
by_appended p s none h = h
by_appended p s (some (appended, tell)) h =
    let r = pop_unfinished (split_lines (s.buffer +++ appended)) in
    by_lines p r.0 (record s { offset = tell; buffer = r.1 }) h

-- Where no race has begun without the competition, none has after more of the log is read, whatever
-- the log says and where it was cut.
pub read_appended_lines-race_is_sport :
    (p : Patterns) (file : Option LogFile) (s : LogState)
    → race_is_sport s ≡ true
    → race_is_sport (read_appended_lines p file s) ≡ true
unfolding read_appended_lines
read_appended_lines-race_is_sport p none s h = h
read_appended_lines-race_is_sport p (some f) s h =
    let s' = check_truncation f s in by_appended p s' (f.read_from s'.offset) (by_truncation f s h)

-- The moments at which the competition and the race began are kept, whatever the lines are.
pub see_lines_keeps :
    (p : Patterns) (lines : List String) (s : LogState)
    → is_set s.sport_started_at ≡ true
    → is_set s.race_started_at ≡ true
    → let t = see_lines p lines s in
      (t.sport_started_at ≡ s.sport_started_at) × (t.race_started_at ≡ s.race_started_at)
unfolding see_lines
see_lines_keeps p [] s h k = (refl, refl)
see_lines_keeps p (line ∷ lines) s h k =
    let t = see_line p s line in
    let e = sport_kept p s line h in
    let f = race_kept p s line k in
    let (x, y) = see_lines_keeps p lines t (ap is_set e ∙ h) (ap is_set f ∙ k) in (x ∙ e, y ∙ f)

-- An observation that another process is running, or the first one, keeps nothing of the facts of
-- the process before.
pub observe_log_restarts :
    (p : Patterns) (id : String) (process known : Identity) (s : LogState) (file : Option LogFile)
    (states : States)
    → lookup id states ≡ some (known, s)
    → same_process known process ≡ false
    → (observe_log p id (some process) file states).1 ≡ read_appended_lines p file (init true)
unfolding observe_log state_of
observe_log_restarts p id process known s file states e h = ground (arith, e, h)
