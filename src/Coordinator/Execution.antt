-- ===== src/Coordinator/Execution.antt =====
-- What `_execute` does to the journal and to the log of executions.
use pitlane_agent.Common.{
  ℕ, String, ◌≡◌, refl, none, some, true, false, List, [], ◌∷◌, ◌++◌, if◌then◌else◌, arith, inl,
  inr, find,
}
use pitlane_agent.Common.Int.{pos}
use pitlane_agent.Common.Json.{Fields, text, object, put}
use mathlib.Core.List.{append-nil}
use pitlane_agent.Journal.Types.{
  Result-cases, Status, executing, succeeded, failed, is_terminal, ok, err, Command,
}
use pitlane_agent.Journal.Operations.{
  is_command, set_command, set_status, set_terminal, mark_executing, mark_terminal,
  superseding_fence, payload,
}
use pitlane_agent.Journal.Operations
use pitlane_agent.Journal.Outcomes.{
  get_found, find-set_command, mark_executing_found, mark_terminal_found, set_status-identity,
  set_terminal-identity, get-set_command,
}
use pitlane_agent.Coordinator.State.{
  callback_error, Environment, Coordinator, returned, raised, M, ◌>>=◌,
}
use pitlane_agent.Coordinator.Operations.{
  emit, after_terminal, Verdict, crash, verdict_of, is_success, error_code_of, error_message_of,
  run_command, mark_verdict, acknowledge, stale_response, refuse_stale, run_current, execute,
}

-- The verdict on a row, and the calls of `execute_command` that it takes.
abbrev pub verdict : Environment → String → Command → Verdict
verdict env id r = elim (payload env.python r) [
  | err e ↦ crash (env.class_name e)
  | ok d ↦ verdict_of (env.execute_command r.command_name (put d "_pitlane_command_id" (text id)))
]

abbrev pub calls : Environment → String → Command → List (String × Fields)
calls env id r = elim (payload env.python r) [
  | err e ↦ []
  | ok d ↦ (r.command_name, put d "_pitlane_command_id" (text id)) ∷ []
]

run_command_lem :
    (env : Environment) (id : String) (r : Command) (s : Coordinator)
    → run_command env id r s
      ≡ (returned (verdict env id r), record s { executions = s.executions ++ calls env id r })
unfolding run_command
run_command_lem env id r s = elim (Result-cases (payload env.python r)) [
  | inl (d, p) ↦ ground (arith, p)
  | inr (e, p) ↦ ground (arith, p, append-nil s.executions)
]

success_terminal :
    (v : Verdict) → is_terminal (if is_success v.status_code then succeeded else failed) ≡ true
success_terminal v = ground arith

pub acknowledge_keeps :
    (env : Environment) (r : Command) (response : Fields) (t : Coordinator)
    → ((acknowledge env r response t).1.journal ≡ t.journal)
      × ((acknowledge env r response t).1.executions ≡ t.executions)
unfolding emit after_terminal
acknowledge_keeps env r response t = ground arith

-- The terminal row that a verdict makes.
abbrev pub settled : Environment → Verdict → String → Command → Command
settled env v now =
    set_terminal (if is_success v.status_code then succeeded else failed)
      (env.python.canonical_json (object v.response)) v.status_code (error_code_of env.python v)
      (error_message_of env.python v) now

module _ (env : Environment) (hub id now : String) (s : Coordinator) {r : Command}
    (found : find (is_command hub id) s.journal.commands ≡ some r) where
  started : Command
  started = set_status executing now r

  module _ (live : is_terminal r.status ≡ false) where
    begun :
        mark_executing s.journal hub id now
        ≡ ok (set_command s.journal hub id (set_status executing now), set_status executing now r)
    begun = rw (mark_executing_found s.journal hub id found now, live) refl

    -- The rest of `run_current`, from the verdict on.
    finish : Verdict → M (Unit {0})
    finish v = do r' ← mark_verdict env hub id v now; acknowledge env r' v.response

    finish_lem :
        (v : Verdict) (t : Coordinator)
        → t.journal ≡ set_command s.journal hub id (set_status executing now)
        → (Operations.get (finish v t).1.journal hub id
            ≡ ok (settled env v now (set_status executing now r)))
          × ((finish v t).1.executions ≡ t.executions)
    unfolding finish
    finish_lem v t e =
        let row = set_status executing now r in
        let found' : find (is_command hub id) t.journal.commands ≡ some row = ground (
          arith,
          e,
          found,
          find-set_command s.journal hub id (set_status executing now)
              (set_status-identity executing now),
        ) in
        let status : Status = if is_success v.status_code then succeeded else failed in
        let body = env.python.canonical_json (object v.response) in
        let made =
          set_terminal status body v.status_code (error_code_of env.python v)
            (error_message_of env.python v) now in
        let same =
          set_terminal-identity status body v.status_code (error_code_of env.python v)
            (error_message_of env.python v) now in
        let marked : mark_terminal env.python t.journal hub id status (object v.response)
              v.status_code (error_code_of env.python v) (error_message_of env.python v) now
            ≡ ok (set_command t.journal hub id made, made row) =
          rw
            (
              mark_terminal_found t.journal hub id found' env.python status v.response v.status_code
                  (error_code_of env.python v) (error_message_of env.python v) now (ground arith),
              v.fits,
            )
            refl in
        ground (
          arith,
          marked,
          acknowledge_keeps env (made row) v.response
              (record t { journal = set_command t.journal hub id made }),
          get-set_command t.journal hub id found' made same,
        )

    run_current_settles :
        env.emit_ack (set_status executing now r) none ≡ true
        → let t = (run_current env hub id now s).1 in
          (Operations.get t.journal hub id
            ≡ ok (
                settled env
                  (verdict env id (set_status executing now r))
                  now
                  (set_status executing now r)))
          × (t.executions ≡ s.executions ++ calls env id r)
    unfolding run_current emit finish payload
    run_current_settles ack =
        let row = set_status executing now r in
        let t = record s {
          journal = set_command s.journal hub id (set_status executing now);
          acks = s.acks ++ (row, none) ∷ [];
        } in
        ground (
          arith,
          begun,
          ack,
          run_command_lem env id row t,
          finish_lem (verdict env id row)
              (record t { executions = t.executions ++ calls env id row }) refl,
        )

    -- A command that is current and not terminal is executed once (where its payload decodes,
    -- else not at all) and its row becomes terminal with the verdict, if the acknowledgement of
    -- the start returns, and whatever the last acknowledgement does.
    pub execute_settles :
        superseding_fence s.journal hub id ≡ ok none
        → env.emit_ack (set_status executing now r) none ≡ true
        → let t = (execute env hub id now s).1 in
          (Operations.get t.journal hub id
            ≡ ok (
                settled env
                  (verdict env id (set_status executing now r))
                  now
                  (set_status executing now r)))
          × (t.executions ≡ s.executions ++ calls env id r)
    unfolding execute
    execute_settles current ack =
        ground (arith, get_found s.journal hub id found, current, run_current_settles ack)

module _ (env : Environment) (hub id now : String) (s : Coordinator) {r : Command}
    (found : find (is_command hub id) s.journal.commands ≡ some r) where
  -- A superseded command that is not terminal is not executed, and ends as `failed` with the code
  -- 409.
  pub execute_superseded :
      (last : ℕ)
      → superseding_fence s.journal hub id ≡ ok (some last)
      → is_terminal r.status ≡ false
      → let t = (execute env hub id now s).1 in
        (t.executions ≡ s.executions)
        × (Operations.get t.journal hub id
            ≡ ok (
                set_terminal failed
                  (env.python.canonical_json
                    (object (stale_response (env.superseded_message r.fence last) last)))
                  (pos 409)
                  (some "stale_fence")
                  (some (env.superseded_message r.fence last))
                  now
                  r))
  unfolding execute refuse_stale emit after_terminal
  execute_superseded last superseded live =
      let message = env.superseded_message r.fence last in
      let body = env.python.canonical_json (object (stale_response message last)) in
      let made = set_terminal failed body (pos 409) (some "stale_fence") (some message) now in
      ground (
        arith,
        get_found s.journal hub id found,
        superseded,
        live,
        mark_terminal_found s.journal hub id found env.python failed (stale_response message last)
            (pos 409) (some "stale_fence") (some message) now refl,
        get-set_command s.journal hub id found made
            (set_terminal-identity failed body (pos 409) (some "stale_fence") (some message) now),
      )

  -- If the acknowledgement of the start of a current command that is not terminal raises, the
  -- command is not executed, its row is left `executing`, and the exception leaves `_execute`.
  pub execute_unacknowledged :
      superseding_fence s.journal hub id ≡ ok none
      → is_terminal r.status ≡ false
      → env.emit_ack (set_status executing now r) none ≡ false
      → let (o, t) = execute env hub id now s in
        (o ≡ raised callback_error)
        × (t.executions ≡ s.executions)
        × (Operations.get t.journal hub id ≡ ok (set_status executing now r))
  unfolding execute run_current emit
  execute_unacknowledged current live silent = ground (
    arith,
    get_found s.journal hub id found,
    current,
    live,
    silent,
    mark_executing_found s.journal hub id found now,
    get-set_command s.journal hub id found (set_status executing now)
        (set_status-identity executing now),
  )

  -- `_execute` of a current command that is terminal already calls `execute_command` once more
  -- (where the payload decodes) and leaves the journal as it was, if the acknowledgement of the
  -- start returns.
  pub execute_repeats :
      superseding_fence s.journal hub id ≡ ok none
      → is_terminal r.status ≡ true
      → env.emit_ack r none ≡ true
      → let t = (execute env hub id now s).1 in
        (t.executions ≡ s.executions ++ calls env id r) × (t.journal ≡ s.journal)
  unfolding execute run_current emit
  execute_repeats current done ack =
      let v = verdict env id r in
      let t = record s { acks = s.acks ++ (r, none) ∷ [] } in
      ground (
        arith,
        get_found s.journal hub id found,
        current,
        done,
        ack,
        mark_executing_found s.journal hub id found now,
        run_command_lem env id r t,
        mark_terminal_found s.journal hub id found env.python
            (if is_success v.status_code then succeeded else failed) v.response v.status_code
            (error_code_of env.python v) (error_message_of env.python v) now (success_terminal v),
        acknowledge_keeps env r v.response
            (record t { executions = s.executions ++ calls env id r }),
      )
