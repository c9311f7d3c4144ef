-- ===== src/Coordinator/Replay.antt =====
-- What the periodic replay does with one journaled command.
use pitlane_agent.Common.{
  String, ◌≡◌, refl, none, some, true, false, [], ◌∷◌, ◌++◌, arith, find, ◌⊎◌, inl, inr,
}
use pitlane_agent.Common.Int.{pos}
use pitlane_agent.Common.Json.{object}
use pitlane_agent.Journal.Types.{received, executing, failed, ok, Command}
use pitlane_agent.Journal.Operations.{is_command, set_command, set_status, set_terminal}
use pitlane_agent.Journal.Operations
use pitlane_agent.Journal.Outcomes.{mark_terminal_found, set_terminal-identity, get-set_command}
use pitlane_agent.Coordinator.State.{Environment, Coordinator, is_member}
use pitlane_agent.Coordinator.Operations.{
  emit, after_terminal, is_non_replayable, interrupted_response, interrupted_message,
  fail_interrupted, schedule, replay_record,
}

module _ (env : Environment) (hub now : String) (s : Coordinator) (r : Command) where
  -- A journaled command that is `executing`, is not scheduled and may not be replayed is neither
  -- executed nor scheduled again: its row ends as `failed` with the code 500, if the first
  -- acknowledgement returns.
  pub replay_interrupted :
      find (is_command hub r.command_id) s.journal.commands ≡ some r
      → r.status ≡ executing
      → is_non_replayable r.command_name ≡ true
      → env.emit_ack r none ≡ true
      → let t = (replay_record env hub now r false s).1 in
        (t.scheduled ≡ s.scheduled)
        × (t.tasks ≡ s.tasks)
        × (t.executions ≡ s.executions)
        × (Operations.get t.journal hub r.command_id
            ≡ ok (
                set_terminal failed
                  (env.python.canonical_json (object interrupted_response))
                  (pos 500)
                  (some "execution_interrupted")
                  (some interrupted_message)
                  now
                  r))
  unfolding replay_record fail_interrupted emit after_terminal
  replay_interrupted found status name ack =
      let body = env.python.canonical_json (object interrupted_response) in
      let made =
        set_terminal failed body (pos 500) (some "execution_interrupted") (some interrupted_message)
          now in
      let id = r.command_id in
      ground (
        arith,
        status,
        name,
        ack,
        mark_terminal_found s.journal hub id found env.python failed interrupted_response (pos 500)
            (some "execution_interrupted") (some interrupted_message) now refl,
        get-set_command s.journal hub id found made (
            set_terminal-identity failed body (pos 500) (some "execution_interrupted")
              (some interrupted_message) now),
      )

  -- A command that is scheduled is never scheduled again by the replay, whatever its status.
  pub replay_scheduled :
      ((replay_record env hub now r true s).1.tasks ≡ s.tasks)
      × ((replay_record env hub now r true s).1.scheduled ≡ s.scheduled)
      × ((replay_record env hub now r true s).1.journal ≡ s.journal)
      × ((replay_record env hub now r true s).1.executions ≡ s.executions)
  unfolding replay_record emit
  replay_scheduled = ground arith

  -- A command that is `received`, or is `executing` and may be replayed, and is not scheduled, is
  -- handed to the executor, if the acknowledgement returns and the executor takes it; the journal
  -- stays as it was.
  pub replay_resumes :
      (r.status ≡ received) ⊎ ((r.status ≡ executing) × (is_non_replayable r.command_name ≡ false))
      → env.emit_ack r none ≡ true
      → env.submit ≡ true
      → is_member (hub, r.command_id) s.scheduled ≡ false
      → ((replay_record env hub now r false s).1.tasks ≡ s.tasks ++ (hub, r.command_id) ∷ [])
        × ((replay_record env hub now r false s).1.journal ≡ s.journal)
  unfolding replay_record emit schedule
  replay_resumes (inl st) ack sub m = ground (arith, st, ack, sub, m)
  replay_resumes (inr (st, name)) ack sub m = ground (arith, st, name, ack, sub, m)
