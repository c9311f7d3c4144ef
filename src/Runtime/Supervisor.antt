-- ===== src/Runtime/Supervisor.antt =====
-- agent/services/process_supervisor.py: `ProcessSupervisor`. A process is what `poll` needs to
-- answer; `poll` is an argument. The log file of a process is left out.
use pitlane_agent.Common.{String, Option, none, some, Bool, true, false, if◌then◌else◌}
use pitlane_agent.Common.Int.{ℤ}
use pitlane_agent.Common.Text.{is_empty}
use pitlane_agent.Common.Dict.{Dict, lookup, insert, remove}

-- What `process.poll()` answers: no exit yet, or an exit with a code, `none` if it is no integer.
pub data Poll : Type 0 where
  alive : Poll
  exited : Option ℤ → Poll

-- The entries of a runtime dict that the supervisor reads. `Payload` stands for what it copies:
-- the instance, the start, the configuration, the paths, the observation of the game.
pub record RuntimeInfo (Process Payload : Type 0) : Type 0 where
  pub process : Option Process
  pub payload : Payload
  pub exit_code_available : Bool
  pub stop_requested_at : Option String
  pub stop_reason : Option String

pub record TerminalInfo (Payload : Type 0) : Type 0 where
  pub payload : Payload
  pub stop_requested_at : Option String
  pub stop_reason : Option String
  pub exit_code : Option ℤ
  pub exit_observed_at : String
  pub exit_origin : String

pub record Supervisor (Process Payload : Type 0) : Type 0 where
  pub running : Dict (RuntimeInfo Process Payload)
  pub terminated : Dict (TerminalInfo Payload)

-- `a or b`.
abbrev pub or_text : Option String → String → Option String
or_text none now = some now
or_text (some s) now = if is_empty s then some now else some s

-- The exit code that the terminal observation records.
abbrev pub recorded_code : Option ℤ → Bool → Option ℤ → Option ℤ
recorded_code (some code) available polled = some code
recorded_code none available polled = if available then polled else none

module _ {Process Payload : Type 0} where
  -- `register` and `restore_running`.
  unfoldable pub register :
      String → RuntimeInfo Process Payload → Supervisor Process Payload → Supervisor Process Payload
  register id info s = record {
    running = insert id info s.running;
    terminated = remove id s.terminated;
  }

  unfoldable pub restore_terminated :
      String → TerminalInfo Payload → Supervisor Process Payload → Supervisor Process Payload
  restore_terminated id t s = elim (lookup id s.running) [
    | some _ ↦ s
    | none ↦ record s { terminated = insert id t s.terminated }
  ]

  abbrev pub stop_requested :
      String → String → RuntimeInfo Process Payload → RuntimeInfo Process Payload
  stop_requested reason now info = record info {
    stop_requested_at = or_text info.stop_requested_at now;
    stop_reason = some reason;
  }

  unfoldable pub request_stop :
      String
      → String
      → String
      → Supervisor Process Payload
      → Supervisor Process Payload × Option (RuntimeInfo Process Payload)
  request_stop id reason now s = elim (lookup id s.running) [
    | none ↦ (s, none)
    | some info ↦
        let info' = stop_requested reason now info in
        (record s { running = insert id info' s.running }, some info')
  ]

  abbrev pub terminal_of : RuntimeInfo Process Payload → Option ℤ → String → TerminalInfo Payload
  terminal_of info code now = record {
    payload = info.payload;
    stop_requested_at = info.stop_requested_at;
    stop_reason = info.stop_reason;
    exit_code = code;
    exit_observed_at = now;
    exit_origin = "process_exit";
  }

  unfoldable pub observe_exit :
      (Process → Poll)
      → String
      → Option ℤ
      → String
      → Supervisor Process Payload
      → Supervisor Process Payload × Option (TerminalInfo Payload)
  observe_exit poll id code now s = elim (lookup id s.running) [
    | none ↦ (s, lookup id s.terminated)
    | some info ↦ elim info.process [
      | none ↦ (s, none)
      | some p ↦ elim (poll p) [
        | alive ↦ (s, none)
        | exited polled ↦
            let t = terminal_of info (recorded_code code info.exit_code_available polled) now in
            (
              record { running = remove id s.running; terminated = insert id t s.terminated },
              some t,
            )
      ]
    ]
  ]

  unfoldable pub forget : String → Supervisor Process Payload → Supervisor Process Payload × Bool
  forget id s = elim (lookup id s.running) [
    | some _ ↦ (s, false)
    | none ↦ elim (lookup id s.terminated) [
      | none ↦ (s, false)
      | some _ ↦ (record s { terminated = remove id s.terminated }, true)
    ]
  ]

  -- An instance is running or terminated, never both.
  abbrev pub Apart : Option (RuntimeInfo Process Payload) → Option (TerminalInfo Payload) → Type 0
  Apart none t = Unit
  Apart (some r) none = Unit
  Apart (some r) (some t) = ⊥

  pub record IsDisjoint (s : Supervisor Process Payload) : Type 0 where
    pub apart : (id : String) → Apart (lookup id s.running) (lookup id s.terminated)
