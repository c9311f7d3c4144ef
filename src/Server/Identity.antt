-- ===== src/Server/Identity.antt =====
-- agent/services/runtime_state.py: `_inspect_process`, which tells a process that was saved from another
-- one with its pid. Times are whole milliseconds.
use pitlane_agent.Common.{
  ℕ, ◌+◌, ◌-◌, ◌≤◌, String, ◌≡◌, refl, ◌⊎◌, inl, inr, Option, none, some, Bool, true, false, not,
  arith, eq_iff, str_eq, ltb, if◌then◌else◌,
}
use pitlane_agent.Common.Text.{is_empty, strip}

-- A call of psutil: an answer, `NoSuchProcess`, or `AccessDenied` or another error of the system.
pub data Answer (A : Type 0) : Type 0 where
  answer : A → Answer A
  no_such denied : Answer A

-- What psutil says of a pid. `process` is the constructor of `Process`; `resolved` is
-- `_safe_executable_path`, and `poll` whether `RestoredProcess.poll` finds the process alive.
pub record Probe : Type 0 where
  pub pid_exists : Bool
  pub process : Answer Unit
  pub is_running : Answer Bool
  pub zombie : Answer Bool
  pub create_time : Answer ℕ
  pub resolved : Option String
  pub name : Answer String
  pub poll : Bool

-- `Path.resolve` of a text, and `str.lower`.
pub record Paths : Type 0 where
  pub resolve : String → String
  pub lower : String → String

-- The process is the saved one, it is certain that that is gone, or neither is known.
pub data Verdict : Type 0 where
  same gone unsure : Verdict

abbrev pub ask : {A : Type 0} → Answer A → (A → Verdict) → Verdict
ask (answer a) k = k a
ask no_such k = gone
ask denied k = unsure

abbrev pub away : ℕ → ℕ → ℕ
away a b = (a - b) + (b - a)

abbrev pub is_later : Option ℕ → ℕ → Bool
is_later none t = false
is_later (some saved) t = ltb 1000 (away saved t)

abbrev pub text_or_empty : Option String → String
text_or_empty none = ""
text_or_empty (some s) = s

-- `str(x or '').strip().lower()`.
abbrev pub normal : Paths → String → String
normal paths s = paths.lower (strip s)

abbrev pub compare_paths : Paths → String → String → Verdict
compare_paths paths expected actual =
    if is_empty actual
    then unsure
    else if str_eq (paths.resolve expected) (paths.resolve actual)
    then same
    else gone

abbrev pub compare_name : Paths → Answer String → String → Verdict
compare_name paths name wanted =
    if is_empty wanted
    then same
    else ask name (λ n. if str_eq (normal paths n) wanted then same else gone)

-- The identity of the program; `game` is the executable name of a game configuration that is given and
-- not empty.
unfoldable pub inspect_program : Paths → Probe → Option String → Option (Option String) → Verdict
inspect_program paths x executable game =
    let expected = strip (text_or_empty executable) in
    if not (is_empty expected)
    then compare_paths paths expected (text_or_empty x.resolved)
    else elim game [
      | none ↦ unsure
      | some name ↦ compare_name paths x.name (normal paths (text_or_empty name))
    ]

unfoldable pub inspect_process :
    Paths → Probe → Option ℕ → Option String → Option (Option String) → Verdict
unfolding inspect_program
inspect_process paths x created executable game =
    if not x.pid_exists
    then gone
    else ask x.process (λ _. ask x.is_running (λ running.
      if not running
      then gone
      else ask x.zombie (λ zombie. if zombie then gone else elim created [
        | none ↦ inspect_program paths x executable game
        | some t ↦
            ask x.create_time (λ now.
              if is_later (some t) now then gone else inspect_program paths x executable game)
      ])))

-- The executable is the saved one; where none was saved and a game is configured, the name of the process
-- is that of the game, or the game has none.
pub data IsProgram (paths : Paths) (x : Probe) (executable : Option String)
    (game : Option (Option String)) : Type 0 where
  by_path :
      (actual : String)
      → x.resolved ≡ some actual
      → paths.resolve (strip (text_or_empty executable)) ≡ paths.resolve actual
      → IsProgram paths x executable game
  by_name :
      (name : Option String) (n : String)
      → is_empty (strip (text_or_empty executable)) ≡ true
      → game ≡ some name
      → x.name ≡ answer n
      → normal paths n ≡ normal paths (text_or_empty name)
      → IsProgram paths x executable game
  unnamed :
      (name : Option String)
      → is_empty (strip (text_or_empty executable)) ≡ true
      → game ≡ some name
      → is_empty (normal paths (text_or_empty name)) ≡ true
      → IsProgram paths x executable game

-- What a process has in common with the saved one.
pub record IsSame (paths : Paths) (x : Probe) (created : Option ℕ) (executable : Option String)
    (game : Option (Option String)) : Type 0 where
  pub lives : (x.pid_exists ≡ true) × (x.is_running ≡ answer true) × (x.zombie ≡ answer false)
  pub time :
      (t : ℕ)
      → created ≡ some t
      → (now : ℕ) × (x.create_time ≡ answer now) × (now ≤ t + 1000) × (t ≤ now + 1000)
  pub program : IsProgram paths x executable game

pub Answer-cases :
    {A : Type 0} (r : Answer A) → ((a : A) × (r ≡ answer a)) ⊎ ((r ≡ no_such) ⊎ (r ≡ denied))
Answer-cases (answer a) = inl (a, refl)
Answer-cases no_such = inr (inl refl)
Answer-cases denied = inr (inr refl)

-- A call whose answer leads to `same` was answered.
ask_same :
    {A : Type 0} (r : Answer A) (k : A → Verdict)
    → ask r k ≡ same
    → (a : A) × (r ≡ answer a) × (k a ≡ same)
ask_same (answer a) k e = (a, refl, e)
ask_same no_such k e = absurd (cc)
ask_same denied k e = absurd (cc)

-- A test that leads to `same`.
if_same :
    (b : Bool) (u v : Verdict)
    → (if b then u else v) ≡ same
    → ((b ≡ true) × (u ≡ same)) ⊎ ((b ≡ false) × (v ≡ same))
if_same true u v e = inl (refl, e)
if_same false u v e = inr (refl, e)

not_gone : (b : Bool) (v : Verdict) → (if b then gone else v) ≡ same → (b ≡ false) × (v ≡ same)
not_gone true v e = absurd (cc)
not_gone false v e = (refl, e)

matched : (b : Bool) → (if b then same else gone) ≡ same → b ≡ true
matched true e = refl
matched false e = absurd (cc)

compare_paths_same :
    (paths : Paths) (expected : String) (actual : Option String)
    → compare_paths paths expected (text_or_empty actual) ≡ same
    → (a : String) × (actual ≡ some a) × (paths.resolve expected ≡ paths.resolve a)
compare_paths_same paths expected none e = absurd (cc)
compare_paths_same paths expected (some a) e = elim (if_same (is_empty a) unsure _ e) [
  | inl (t, u) ↦ absurd (cc)
  | inr (f, u) ↦ (
    a,
    refl,
    ground (
      arith,
      matched (str_eq (paths.resolve expected) (paths.resolve a)) u,
      eq_iff (paths.resolve expected) (paths.resolve a),
    ),
  )
]

program_same :
    (paths : Paths) (x : Probe) (executable : Option String) (game : Option (Option String))
    → inspect_program paths x executable game ≡ same
    → IsProgram paths x executable game
unfolding inspect_program
program_same paths x executable none e =
    elim (if_same (not (is_empty (strip (text_or_empty executable)))) _ unsure e) [
      | inl (t, u) ↦ let (a, p, q) = compare_paths_same paths _ x.resolved u in by_path a p q
      | inr (f, u) ↦ absurd (cc)
    ]
program_same paths x executable (some name) e =
    let wanted = normal paths (text_or_empty name) in
    elim (if_same (not (is_empty (strip (text_or_empty executable)))) _ _ e) [
      | inl (t, u) ↦ let (a, p, q) = compare_paths_same paths _ x.resolved u in by_path a p q
      | inr (f, u) ↦
          let no_path : is_empty (strip (text_or_empty executable)) ≡ true = ground (arith, f) in
          elim (if_same (is_empty wanted) same _ u) [
            | inl (t, w) ↦ unnamed name no_path refl t
            | inr (n, w) ↦
                let (found, p, q) = ask_same x.name _ w in
                by_name name found no_path refl p (
                  ground (
                    arith,
                    matched (str_eq (normal paths found) wanted) q,
                    eq_iff (normal paths found) wanted,
                  ))
          ]
    ]

-- A process is taken for the saved one only if it runs and is no zombie, was created within a second
-- of the saved time, where one was saved, and runs the saved executable, or, where none was saved, the
-- program that the configuration of the game names.
pub inspect_process_same :
    (paths : Paths) (x : Probe) (created : Option ℕ) (executable : Option String)
    (game : Option (Option String))
    → inspect_process paths x created executable game ≡ same
    → IsSame paths x created executable game
unfolding inspect_process
inspect_process_same paths x created executable game e =
    let (exists, e₁) = not_gone (not x.pid_exists) _ e in
    let (_, _, e₂) = ask_same x.process _ e₁ in
    let (r, running, e₃) = ask_same x.is_running _ e₂ in
    let (runs, e₄) = not_gone (not r) _ e₃ in
    let (z, zombie, e₅) = ask_same x.zombie _ e₄ in
    let (lives, e₆) = not_gone z _ e₅ in
    let (time, program) = time_lem created e₆ in
    record {
      lives = (
        ground (arith, exists),
        rw running (ground (arith, runs)),
        rw zombie (ground (arith, lives)),
      );
      time = time;
      program = program_same paths x executable game program;
    }
  where
    time_lem :
        (c : Option ℕ)
        → (elim c [
          | none ↦ inspect_program paths x executable game
          | some t ↦ ask x.create_time (λ now.
              if is_later (some t) now then gone else inspect_program paths x executable game)
        ])
          ≡ same
        → ((t : ℕ)
            → c ≡ some t
            → (now : ℕ) × (x.create_time ≡ answer now) × (now ≤ t + 1000) × (t ≤ now + 1000))
          × (inspect_program paths x executable game ≡ same)
    time_lem none h = ((λ t q. absurd (cc)), h)
    time_lem (some saved) h =
        let (now, p, k) = ask_same x.create_time _ h in
        let (near, w) = not_gone (is_later (some saved) now) _ k in
        ((λ t q. (now, p, ground (arith, near, q), ground (arith, near, q))), w)
