-- ===== src/Telemetry/Drivers.antt =====
-- `PlayerCountResolver`: the number of drivers, from the game's HTTP status and from its log.
use pitlane_agent.Common.{
  ℕ, ◌+◌, ◌-◌, String, ◌≡◌, ◌↔◌, Option, none, some, Bool, true, false, ◌&&◌, not, arith,
  if◌then◌else◌, leb, ◌==◌, str_eq, eq_iff, le_text,
}
use pitlane_agent.Common.Text.{is_empty}
use pitlane_agent.Common.Dict.{Dict, lookup, insert, lookup-insert}

-- `datetime.fromisoformat`, where it raises none, as milliseconds since the epoch.
pub record Clock : Type 0 where
  pub from_iso : String → Option ℕ

-- The age in milliseconds, 0 for a moment to come.
unfoldable pub timestamp_age : Clock → ℕ → Option String → Option ℕ
timestamp_age c now none = none
timestamp_age c now (some t) =
    if is_empty t then none else elim (c.from_iso t) [ none ↦ none | some at ↦ some (now - at) ]

-- What a source has seen: a count and the moment of it.
pub record Sighting : Type 0 where
  pub connected_drivers : Option ℕ
  pub seen_at : Option String

-- LOG_PLAYER_COUNT_FRESH_SECONDS, in milliseconds.
unfoldable pub is_fresh : Clock → ℕ → Sighting → Bool
unfolding timestamp_age
is_fresh c now log = elim log.connected_drivers [
  | none ↦ false
  | some n ↦ elim (timestamp_age c now log.seen_at) [ none ↦ false | some age ↦ leb age 30000 ]
]

pub data Source : Type 0 where
  conflict game_log http unknown : Source

pub record Resolution : Type 0 where
  pub connected_drivers : Option ℕ
  pub seen_at : Option String
  pub source : Source
  pub drivers_conflict : Bool
  pub zero_confirmed : Bool

-- For an instance, the identity of its process and the number of HTTP zeros in a row.
abbrev pub HttpStates : Type 0
HttpStates = Dict (String × ℕ)

unfoldable pub zero_streak : String → String → HttpStates → ℕ
unfolding lookup
zero_streak id process states = elim (lookup id states) [
  | none ↦ 0
  | some (known, streak) ↦ if str_eq known process then streak else 0
]

abbrev pub is_zero : Option ℕ → Bool
is_zero none = false
is_zero (some n) = n == 0

abbrev pub differ : Option ℕ → Option ℕ → Bool
differ (some m) (some n) = not (m == n)
differ none b = false
differ (some m) none = false

-- `max(filter(None, [a, b]), default=None)`.
unfoldable pub latest : Option String → Option String → Option String
latest none none = none
latest none (some t) = if is_empty t then none else some t
latest (some s) none = if is_empty s then none else some s
latest (some s) (some t) =
    if is_empty s
    then (if is_empty t then none else some t)
    else if is_empty t
    then some s
    else if le_text t s
    then some s
    else some t

-- The choice between the sources, from the streak after this observation.
unfoldable pub merge : Bool → ℕ → Sighting → Sighting → Resolution
unfolding latest
merge fresh streak web log =
    if fresh && differ log.connected_drivers web.connected_drivers
    then record {
      connected_drivers = none;
      seen_at = latest log.seen_at web.seen_at;
      source = conflict;
      drivers_conflict = true;
      zero_confirmed = false;
    }
    else if fresh
    then record {
      connected_drivers = log.connected_drivers;
      seen_at = log.seen_at;
      source = game_log;
      drivers_conflict = false;
      zero_confirmed = is_zero log.connected_drivers;
    }
    else elim web.connected_drivers [
      | some n ↦ record {
        connected_drivers = some n;
        seen_at = web.seen_at;
        source = http;
        drivers_conflict = false;
        zero_confirmed = n == 0 && leb 2 streak;
      }
      | none ↦ record {
        connected_drivers = none;
        seen_at = none;
        source = unknown;
        drivers_conflict = false;
        zero_confirmed = false;
      }
    ]

unfoldable pub resolve :
    Clock → ℕ → String → String → Sighting → Sighting → HttpStates → HttpStates × Resolution
unfolding zero_streak is_fresh merge insert
resolve c now id process web log states =
    let streak = if is_zero web.connected_drivers then zero_streak id process states + 1 else 0 in
    (insert id (process, streak) states, merge (is_fresh c now log) streak web log)

-- A zero is confirmed exactly where a fresh log says zero and HTTP does not disagree, or where
-- the log is not fresh, HTTP says zero and the streak of zeros of the same process was at least
-- one before.
pub zero_confirmed_iff :
    (c : Clock) (now : ℕ) (id process : String) (web log : Sighting) (states : HttpStates)
    → let r = (resolve c now id process web log states).1 in
      (r.zero_confirmed ≡ true) ↔ (
        (if is_fresh c now log
          then is_zero log.connected_drivers
            && not (differ log.connected_drivers web.connected_drivers)
          else is_zero web.connected_drivers && leb 1 (zero_streak id process states))
        ≡ true)
unfolding resolve merge is_fresh
zero_confirmed_iff c now id process web log states =
    ((λ h. ground (arith, h)), (λ h. ground (arith, h)))

-- The streak that an observation leaves for the next one of the instance: of the same process it
-- is one more after an HTTP zero and none after anything else, and of another process it is none.
pub zero_streak-resolve :
    (c : Clock) (now : ℕ) (id process other : String) (web log : Sighting) (states : HttpStates)
    → zero_streak id other (resolve c now id process web log states).0 ≡ (
        if str_eq process other && is_zero web.connected_drivers
        then zero_streak id process states + 1
        else 0)
unfolding resolve zero_streak
zero_streak-resolve c now id process other web log states =
    let streak = if is_zero web.connected_drivers then zero_streak id process states + 1 else 0 in
    ground (arith, lookup-insert id id (process, streak) states, eq_iff id id)

-- A resolution that gives a count gives one that a source has seen, and no fresh log contradicts it.
pub resolve_sound :
    (c : Clock) (now : ℕ) (id process : String) (web log : Sighting) (states : HttpStates) (n : ℕ)
    → (resolve c now id process web log states).1.connected_drivers ≡ some n
    → (if is_fresh c now log then log.connected_drivers else web.connected_drivers) ≡ some n
unfolding resolve merge
resolve_sound c now id process web log states n h = ground (arith, h)
