-- ===== src/Runtime/Guard.antt =====
-- agent/services/season_restart_guard.py: `SeasonRestartGuard.run_once`.
use pitlane_agent.Common.{
  ℕ, suc, ◌≤◌, String, ◌≡◌, refl, ◌↔◌, Option, none, some, Bool, true, false, List, [], ◌∷◌, ◌&&◌,
  not, arith, if◌then◌else◌, ltb,
}
use pitlane_agent.Common.Text.{is_empty}

-- What the guard reads of an observation of the game; `season_restart_count` is 0 where absent.
pub record Observation : Type 0 where
  pub season_restart_count : ℕ
  pub season_restart_observed_at : Option String
  pub log_observed_from_start : Bool
  pub sport_started_at : Option String
  pub race_started_at : Option String
  pub crash_detected_at : Option String

-- What it reads and writes of a runtime dict. `is_running` is that there is a process that has not
-- exited.
pub record Info : Type 0 where
  pub is_running : Bool
  pub stop_on_season_restart : Bool
  pub triggered : Bool
  pub last_processed_count : ℕ
  pub game_observation : Option Observation

abbrev pub is_set : Option String → Bool
is_set none = false
is_set (some s) = not (is_empty s)

unfoldable pub can_continue_precompetitive : Observation → Bool
can_continue_precompetitive o =
    o.log_observed_from_start
    && not (is_set o.sport_started_at)
    && not (is_set o.race_started_at)
    && not (is_set o.crash_detected_at)

-- What the callbacks do: `persist` and `stop` return, or raise where these are `false`.
pub record Callbacks : Type 0 where
  pub persist : Bool
  pub stop : Bool

-- What one round did to an instance.
pub data Round : Type 0 where
  skipped continued stopped : Round
  persist_raised stop_raised : Round

unfoldable pub is_armed : Info → Bool
is_armed i = i.is_running && i.stop_on_season_restart && not i.triggered

unfoldable pub is_new_restart : Info → Observation → Bool
is_new_restart i o =
    ltb i.last_processed_count o.season_restart_count && is_set o.season_restart_observed_at

unfoldable pub guard_instance : Callbacks → Observation → Info → Info × Round
unfolding is_armed is_new_restart can_continue_precompetitive
guard_instance c o i =
    let seen = record i { game_observation = some o } in
    if not (is_armed i)
    then (i, skipped)
    else if not (is_new_restart i o)
    then (seen, skipped)
    else if can_continue_precompetitive o
    then (
      record seen { last_processed_count = o.season_restart_count },
      if c.persist then continued else persist_raised,
    )
    else if c.stop
    then (record seen { triggered = true }, stopped)
    else (record seen { triggered = false }, stop_raised)

-- The instances one after the other; a raised exception leaves the loop. The count is of the
-- instances that were stopped.
abbrev pub infos : List (Observation × Info) → List Info
infos [] = []
infos ((o, i) ∷ rest) = i ∷ infos rest

unfoldable pub run_once : Callbacks → List (Observation × Info) → List Info × ℕ × Bool
unfolding guard_instance
run_once c [] = ([], 0, true)
run_once c ((o, i) ∷ rest) =
    let (i', round) = guard_instance c o i in
    let (is, n, done) = run_once c rest in
    elim round [
      | skipped ↦ (i' ∷ is, n, done)
      | continued ↦ (i' ∷ is, n, done)
      | stopped ↦ (i' ∷ is, suc n, done)
      | persist_raised ↦ (i' ∷ infos rest, 0, false)
      | stop_raised ↦ (i' ∷ infos rest, 0, false)
    ]

-- An instance is stopped exactly when it is armed, the observation shows a restart that was not
-- processed, the competition may have begun, and the stop succeeds.
pub stopped_iff :
    (c : Callbacks) (o : Observation) (i : Info)
    → ((guard_instance c o i).1 ≡ stopped)
      ↔ ((is_armed i && is_new_restart i o && not (can_continue_precompetitive o) && c.stop) ≡ true)
unfolding guard_instance
stopped_iff c o i = ((λ h. ground (arith, h)), (λ h. ground (arith, h)))

-- For an armed instance with a new restart that is not precompetitive, a stop that raises leaves
-- the guard armed, the next round with the same observation stops the instance, and the rounds
-- after it, whatever they observe, skip it.
pub stop_retried :
    (o o' : Observation) (c c' : Callbacks) (i : Info)
    → (is_armed i && is_new_restart i o && not (can_continue_precompetitive o)) ≡ true
    → c.stop ≡ false
    → c'.stop ≡ true
    → let first = guard_instance c o i in
      let second = guard_instance c' o first.0 in
      let third = guard_instance c' o' second.0 in
      (first.1 ≡ stop_raised) × (second.1 ≡ stopped) × (third.1 ≡ skipped)
unfolding guard_instance
stop_retried o o' c c' i h fails works = ground (arith, h, fails, works)

-- The state after such a restart.
let_through :
    (c : Callbacks) (o : Observation) (i : Info)
    → (is_armed i && is_new_restart i o && can_continue_precompetitive o) ≡ true
    → (guard_instance c o i).0
      ≡ record i { game_observation = some o; last_processed_count = o.season_restart_count }
unfolding guard_instance
let_through c o i h = ground (arith, h)

passes :
    (c : Callbacks) (o : Observation) (i : Info)
    → (is_armed i && is_new_restart i o && can_continue_precompetitive o) ≡ true
    → (guard_instance c o i).1 ≡ (if c.persist then continued else persist_raised)
unfolding guard_instance
passes c o i h = ground (arith, h)

not_new :
    (i : Info) (o : Observation)
    → o.season_restart_count ≤ i.last_processed_count
    → is_new_restart i o ≡ false
unfolding is_new_restart
not_new i o le = ground arith

skips :
    (c : Callbacks) (o : Observation) (i : Info)
    → is_new_restart i o ≡ false
    → (guard_instance c o i).1 ≡ skipped
unfolding guard_instance
skips c o i h = ground (arith, h)

-- A new precompetitive restart of an armed instance is let through once: the round continues, or raises
-- where it cannot be persisted, the count is recorded and the instance runs on, not triggered; and an
-- observation with no larger count does not stop the instance later, whatever else it shows.
pub precompetitive_processed :
    (o o' : Observation) (c c' : Callbacks) (i : Info)
    → (is_armed i && is_new_restart i o && can_continue_precompetitive o) ≡ true
    → o'.season_restart_count ≤ o.season_restart_count
    → let first = guard_instance c o i in
      (first.1 ≡ (if c.persist then continued else persist_raised))
      × (first.0.last_processed_count ≡ o.season_restart_count)
      × (first.0.triggered ≡ i.triggered)
      × (first.0.is_running ≡ i.is_running)
      × ((guard_instance c' o' first.0).1 ≡ skipped)
precompetitive_processed o o' c c' i h le =
    let seen = record i {
      game_observation = some o;
      last_processed_count = o.season_restart_count;
    } in
    let later = skips c' o' seen (not_new seen o' le) in
    (
      passes c o i h,
      rw (let_through c o i h) refl,
      rw (let_through c o i h) refl,
      rw (let_through c o i h) refl,
      rw (let_through c o i h) later,
    )
