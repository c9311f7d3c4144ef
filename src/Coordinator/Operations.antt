-- ===== src/Coordinator/Operations.antt =====
-- The methods of DurableCommandCoordinator. A method takes one reading of the clock, and runs here to
-- its end before another begins; Workers has `_execute` in steps.
use pitlane_agent.Common.{
  ℕ, suc, String, ◌≡◌, refl, Option, none, some, Bool, true, false, List, [], ◌∷◌, ◌++◌, ◌&&◌, ◌||◌,
  not, str_eq, leb, ltb, if◌then◌else◌, length,
}
use Prim.Native.String.{◌++◌ as append}
use pitlane_agent.Common.Int.{ℤ, pos, negsuc, ltb_ℤ}
use pitlane_agent.Common.Json.{Value, Fields, null, integer, text, object, end, field, get, put}
use pitlane_agent.Journal.Types.{
  received, executing, succeeded, failed, status_eq, status_rank, ok, err, Command,
}
use pitlane_agent.Journal.Contract.{Python}
use pitlane_agent.Journal.Operations
use pitlane_agent.Coordinator.State.{
  callback_error, Execution, answered, crashed, Environment, Key, returned, raised, M, ◌>>=◌, ◌>>◌,
  pure, transact, query, swallow, is_member, discard, finally_discard,
}

unfoldable pub emit : Environment → Command → Option Fields → M (Unit {0})
emit env r response s =
    if env.emit_ack r response
    then (returned tt, record s { acks = s.acks ++ (r, response) ∷ [] })
    else (raised callback_error, s)

unfoldable pub after_terminal : Environment → M (Unit {0})
after_terminal env s =
    if env.after_terminal
    then (returned tt, record s { terminal_calls = suc s.terminal_calls })
    else (raised callback_error, s)

-- `_schedule`.
unfoldable pub schedule : Environment → String → Command → M (Unit {0})
schedule env hub r s =
    let key : Key = (hub, r.command_id) in
    if is_member key s.scheduled
    then (returned tt, s)
    else if env.submit
    then (
      returned tt,
      record s { scheduled = s.scheduled ++ key ∷ []; tasks = s.tasks ++ key ∷ [] },
    )
    else (raised callback_error, record s { scheduled = discard key (s.scheduled ++ key ∷ []) })

abbrev pub when : Bool → M (Unit {0}) → M (Unit {0})
when true m = m
when false m = pure tt

-- The journal's `receive`, without the flag.
abbrev pub journal_receive : Environment → String → Fields → String → M Command
journal_receive env hub m now = transact (λ j. elim (Operations.receive env.python j hub m now) [
  | ok (j', r, _) ↦ ok (j', r)
  | err e ↦ err e
])

unfoldable pub receive : Environment → String → Fields → String → M Command
unfolding emit schedule
receive env hub m now = do
  r ← journal_receive env hub m now
  emit env r none
  when (status_eq r.status received) (schedule env hub r)
  pure r

unfoldable pub confirm : String → String → String → String → M Command
confirm hub id status now = transact (λ j. Operations.confirm j hub id status now)

-- What `_execute` hands to `mark_terminal`.
pub record Verdict : Type 0 where
  pub response : Fields
  pub status_code : ℤ
  pub fits : Operations.is_integer status_code ≡ true

-- `str(v)`.
abbrev pub str_of : Python → Value → String
str_of py (text s) = s
str_of py v = py.str_of v

abbrev pub error_response : String → Fields
error_response message = field "error" (text message) end

abbrev pub crash : String → Verdict
crash class = record {
  response = error_response (append "Erreur commande : " class);
  status_code = pos 500;
  fits = refl;
}

-- The answer of `execute_command`, or of the handler of its exceptions.
unfoldable pub verdict_of : Execution → Verdict
verdict_of (crashed class) = crash class
verdict_of (answered (object d) code fits) = record {
  response = d;
  status_code = code;
  fits = fits;
}
verdict_of (answered _ code _) = record {
  response = error_response "Réponse de commande invalide";
  status_code = pos 500;
  fits = refl;
}

-- `200 <= code < 300`.
unfoldable pub is_success : ℤ → Bool
is_success (pos n) = leb 200 n && ltb n 300
is_success (negsuc n) = false

abbrev pub opt_str : Python → Value → Option String
opt_str py null = none
opt_str py v = some (str_of py v)

abbrev pub error_code_of : Python → Verdict → Option String
error_code_of py v = if is_success v.status_code then none else opt_str py (get v.response "code")

abbrev pub error_message_of : Python → Verdict → Option String
error_message_of py v =
    if is_success v.status_code then none else elim (opt_str py (get v.response "error")) [
      | none ↦ some "Commande agent en échec"
      | some s ↦ some s
    ]

-- The `try` around `execute_command`: the payload is decoded inside it.
unfoldable pub run_command : Environment → String → Command → M Verdict
unfolding verdict_of
run_command env id r s = elim (Operations.payload env.python r) [
  | err e ↦ (returned (crash (env.class_name e)), s)
  | ok d ↦
      let payload = put d "_pitlane_command_id" (text id) in
      (
        returned (verdict_of (env.execute_command r.command_name payload)),
        record s { executions = s.executions ++ (r.command_name, payload) ∷ [] },
      )
]

abbrev pub mark_verdict : Environment → String → String → Verdict → String → M Command
mark_verdict env hub id v now = transact (λ j.
    Operations.mark_terminal env.python j hub id
      (if is_success v.status_code then succeeded else failed) (object v.response) v.status_code
      (error_code_of env.python v) (error_message_of env.python v) now)

-- The last acknowledgement: an exception is swallowed, the journal stays the authority.
abbrev pub acknowledge : Environment → Command → Fields → M (Unit {0})
acknowledge env r response = swallow (do emit env r (some response); after_terminal env)

abbrev pub stale_response : String → ℕ → Fields
stale_response message last =
    field "code" (text "stale_fence")
      (field "error" (text message) (field "superseding_fence" (integer (pos last)) end))

-- A superseded command fails and is not executed.
unfoldable pub refuse_stale : Environment → String → String → Command → ℕ → String → M (Unit {0})
unfolding emit after_terminal
refuse_stale env hub id r last now = do
  let message = env.superseded_message r.fence last
  r' ← transact (λ j.
      Operations.mark_terminal env.python j hub id failed (object (stale_response message last))
        (pos 409) (some "stale_fence") (some message) now)
  swallow (do
    response ← query (λ j. Operations.response env.python r')
    emit env r' (some response)
    after_terminal env)

unfoldable pub run_current : Environment → String → String → String → M (Unit {0})
unfolding emit after_terminal run_command is_success
run_current env hub id now = do
  r ← transact (λ j. Operations.mark_executing j hub id now)
  emit env r none
  v ← run_command env id r
  r' ← mark_verdict env hub id v now
  acknowledge env r' v.response

abbrev pub dispatch : Environment → String → String → Command → String → Option ℕ → M (Unit {0})
dispatch env hub id r now none = run_current env hub id now
dispatch env hub id r now (some last) = refuse_stale env hub id r last now

-- `_execute`, by a worker of the executor, under the lock of the command's target.
unfoldable pub execute : Environment → String → String → String → M (Unit {0})
unfolding refuse_stale run_current
execute env hub id now =
    finally_discard (hub, id)
      (do
        r ← query (λ j. Operations.get j hub id)
        superseding ← query (λ j. Operations.superseding_fence j hub id)
        dispatch env hub id r now superseding)

abbrev pub is_non_replayable : String → Bool
is_non_replayable name = str_eq name "steam_update" || str_eq name "update_steam"

abbrev pub interrupted_message : String
interrupted_message = "L’agent a redémarré pendant cette commande non rejouable."

abbrev pub interrupted_response : Fields
interrupted_response =
    field "code" (text "execution_interrupted") (error_response interrupted_message)

-- An interrupted command that may not be replayed fails.
unfoldable pub fail_interrupted : Environment → String → String → String → M (Unit {0})
unfolding emit after_terminal
fail_interrupted env hub id now = do
  r ← transact (λ j.
      Operations.mark_terminal env.python j hub id failed (object interrupted_response) (pos 500)
        (some "execution_interrupted") (some interrupted_message) now)
  response ← query (λ j. Operations.response env.python r)
  emit env r (some response)
  after_terminal env

-- One record of `replay_pending`; `scheduled` is read at its start.
unfoldable pub replay_record : Environment → String → String → Command → Bool → M (Unit {0})
unfolding emit schedule fail_interrupted
replay_record env hub now r scheduled = do
  when (not scheduled || ltb_ℤ r.confirmed_rank (pos (status_rank r.status))) (emit env r none)
  if status_eq r.status received && not scheduled
      then schedule env hub r
      else when (status_eq r.status executing && not scheduled) (
          if is_non_replayable r.command_name
          then fail_interrupted env hub r.command_id now
          else schedule env hub r)

unfoldable pub replay_records : Environment → String → String → List Command → M (Unit {0})
unfolding replay_record
replay_records env hub now [] s = (returned tt, s)
replay_records env hub now (r ∷ rs) s =
    let rest = replay_records env hub now rs in
    (replay_record env hub now r (is_member (hub, r.command_id) s.scheduled) >> rest) s

unfoldable pub place : Command → List Command → List Command
place r [] = r ∷ []
place r (x ∷ xs) = if str_eq x.command_id r.command_id then r ∷ xs else x ∷ place r xs

-- `{record['command_id']: record ...}`: a later record takes the place of an earlier one.
unfoldable pub by_id : List Command → List Command → List Command
unfolding place
by_id acc [] = acc
by_id acc (r ∷ rs) = by_id (place r acc) rs

unfoldable pub replay_pending : Environment → String → ℕ → String → M ℕ
unfolding replay_records by_id
replay_pending env hub limit now s =
    let records = by_id [] (
      Operations.pending_acknowledgements s.journal hub limit
      ++ Operations.incomplete_commands s.journal hub limit) in
    (replay_records env hub now records >>= λ _. pure (length records)) s
