-- ===== src/Server/RoundTrip.antt =====
-- What is saved is restored, where the processes still run.
use pitlane_agent.Common.{
  ℕ, String, ◌≡◌, refl, sym, ap, ◌∙◌, inl, inr, Option, none, some, Bool, true, List, [], ◌∷◌, not,
  arith, Option-cases, Bool-cases, eq_iff, str_eq, if◌then◌else◌,
}
use pitlane_agent.Common.Json.{get}
use pitlane_agent.Common.Dict.{Dict, lookup, insert, lookup-insert}
use pitlane_agent.Runtime.Supervisor.{Supervisor, register}
use pitlane_agent.Server.Instances.{Launched, Info, has_pid}
use pitlane_agent.Server.Identity.{
  answer, no_such, denied, Answer-cases, same, gone, unsure, inspect_process,
}
use pitlane_agent.Server.Persistence.{
  Saved, Entry, malformed, entry, Restoration, restored_info, adopt, verdict, restore_entry,
  restore_entries, restore_runtime_state, boot_changed, missing_process_terminal, saved_entry,
  saved_of, save_instance, save_running, save_terminated, save_runtime_state,
  last_processed_restart_count,
}
use pitlane_agent.Server.Adoption.{restore_terminated-running, restore_ends-running, Verdict-cases}

-- The keys of a Python dict.
abbrev pub HasUniqueKeys : {V : Type 0} → Dict V → Type 0
HasUniqueKeys [] = Unit
HasUniqueKeys ((k, v) ∷ d) = (lookup k d ≡ none) × HasUniqueKeys d

insert-HasUniqueKeys :
    {V : Type 0} (k : String) (v : V) (d : Dict V) → HasUniqueKeys d → HasUniqueKeys (insert k v d)
unfolding insert lookup
insert-HasUniqueKeys k v [] u = (refl, tt)
insert-HasUniqueKeys k v ((j, w) ∷ d) (n, u) = elim (Bool-cases (str_eq j k)) [
  | inl t ↦ rw t (n, u)
  | inr f ↦ rw f (
    ground (arith, n, f, lookup-insert k j v d, eq_iff k j, eq_iff j k),
    insert-HasUniqueKeys k v d u,
  )
]

abbrev or_else : {V : Type 0} → Option V → Option V → Option V
or_else none y = y
or_else (some x) y = some x

-- The entry that is saved of an instance, if one is.
abbrev entry_at : List ℕ → ℕ → Option Info → Option Entry
entry_at live now none = none
entry_at live now (some info) = elim info.process [
  | none ↦ none
  | some p ↦ if has_pid p live then some (saved_entry now p info) else none
]

lookup-save_instance :
    (live : List ℕ) (now : ℕ) (k j : String) (i : Info) (acc : Dict Entry)
    → lookup j (save_instance live now k i acc)
      ≡ (if str_eq k j then or_else (entry_at live now (some i)) (lookup j acc) else lookup j acc)
lookup-save_instance live now k j i acc = elim (Option-cases i.process) [
  | inl n ↦ rw n (ground arith)
  | inr (p, e) ↦ elim (Bool-cases (has_pid p live)) [
    | inl t ↦ rw (e, t, lookup-insert k j (saved_entry now p i) acc) (ground arith)
    | inr f ↦ rw (e, f) (ground arith)
  ]
]

lookup-save_running :
    (live : List ℕ) (now : ℕ) (d : Dict Info) (acc : Dict Entry) (j : String)
    → HasUniqueKeys d
    → lookup j (save_running live now d acc)
      ≡ or_else (entry_at live now (lookup j d)) (lookup j acc)
unfolding save_running lookup
lookup-save_running live now [] acc j u = refl
lookup-save_running live now ((k, i) ∷ d) acc j (n, u) =
    lookup-save_running live now d (save_instance live now k i acc) j u
    ∙ elim (Bool-cases (str_eq k j)) [
      | inl t ↦
          let here : lookup j d ≡ none = ground (arith, n, t, eq_iff k j) in
          rw (here, lookup-save_instance live now k j i acc, t) refl
      | inr f ↦ rw (lookup-save_instance live now k j i acc, f) refl
    ]

save_instance-HasUniqueKeys :
    (live : List ℕ) (now : ℕ) (k : String) (i : Info) (acc : Dict Entry)
    → HasUniqueKeys acc
    → HasUniqueKeys (save_instance live now k i acc)
save_instance-HasUniqueKeys live now k i acc u = elim (Option-cases i.process) [
  | inl n ↦ rw n u
  | inr (p, e) ↦ elim (Bool-cases (has_pid p live)) [
    | inl t ↦ rw (e, t) (insert-HasUniqueKeys k (saved_entry now p i) acc u)
    | inr f ↦ rw (e, f) u
  ]
]

save_running-HasUniqueKeys :
    (live : List ℕ) (now : ℕ) (d : Dict Info) (acc : Dict Entry)
    → HasUniqueKeys acc
    → HasUniqueKeys (save_running live now d acc)
unfolding save_running
save_running-HasUniqueKeys live now [] acc u = u
save_running-HasUniqueKeys live now ((k, i) ∷ d) acc u =
    save_running-HasUniqueKeys live now d (save_instance live now k i acc)
      (save_instance-HasUniqueKeys live now k i acc u)

-- The instance that an entry brings back, if it does.
abbrev adopted : Restoration → String → Saved → Option Info
adopted x id v = if not (x.probe v.pid).poll then none else elim (x.probe v.pid).create_time [
  | answer created ↦ some (restored_info x id v created)
  | no_such ↦ none
  | denied ↦ none
]

abbrev restored_at : Restoration → String → Option Entry → Option Info
restored_at x id none = none
restored_at x id (some malformed) = none
restored_at x id (some (entry v)) = elim (verdict x v) [
  | same ↦ adopted x id v
  | gone ↦ none
  | unsure ↦ none
]

lookup-adopt :
    (x : Restoration) (id j : String) (v : Saved) (r : Supervisor ℕ Launched × ℕ)
    → lookup j (adopt x id v r).0.running ≡ (
        if str_eq id j
        then or_else (adopted x id v) (lookup j r.0.running)
        else lookup j r.0.running)
unfolding register
lookup-adopt x id j v r = elim (Bool-cases (x.probe v.pid).poll) [
  | inr f ↦ rw f (ground arith)
  | inl t ↦ elim (Answer-cases (x.probe v.pid).create_time) [
    | inl (c, e) ↦ rw (t, e, lookup-insert id j (restored_info x id v c) r.0.running) (ground arith)
    | inr (inl e) ↦ rw (t, e) (ground arith)
    | inr (inr e) ↦ rw (t, e) (ground arith)
  ]
]

lookup-restore_entry :
    (x : Restoration) (b : Option Bool) (id j : String) (e : Entry) (r : Supervisor ℕ Launched × ℕ)
    → lookup j (restore_entry x b id e r).0.running ≡ (
        if str_eq id j
        then or_else (restored_at x id (some e)) (lookup j r.0.running)
        else lookup j r.0.running)
unfolding restore_entry
lookup-restore_entry x b id j malformed r = ground arith
lookup-restore_entry x b id j (entry v) r = elim (Verdict-cases (verdict x v)) [
  | inl w ↦ rw (w, restore_entry, restored_at) (lookup-adopt x id j v r)
  | inr (inl w) ↦
      rw
        (
          w,
          restore_entry,
          restore_terminated-running id (missing_process_terminal id v b x.observed_at) r.0,
          restored_at,
        )
        (ground arith)
  | inr (inr w) ↦ rw (w, restore_entry, restored_at) (ground arith)
]

lookup-restore_entries :
    (x : Restoration) (b : Option Bool) (d : Dict Entry) (r : Supervisor ℕ Launched × ℕ)
    (j : String)
    → HasUniqueKeys d
    → lookup j (restore_entries x b d r).0.running
      ≡ or_else (restored_at x j (lookup j d)) (lookup j r.0.running)
unfolding restore_entries lookup
lookup-restore_entries x b [] r j u = refl
lookup-restore_entries x b ((k, e) ∷ d) r j (n, u) =
    lookup-restore_entries x b d (restore_entry x b k e r) j u ∙ elim (Bool-cases (str_eq k j)) [
      | inl t ↦
          let here : k ≡ j = ground (arith, t, eq_iff k j) in
          let last : lookup j d ≡ none = ground (arith, n, here) in
          rw (last, lookup-restore_entry x b k j e r, t)
            (ap (λ i. or_else (restored_at x i (some e)) (lookup j r.0.running)) here)
      | inr f ↦ rw (lookup-restore_entry x b k j e r, f) refl
    ]

-- What is restored of an instance that was saved.
pub record Restored (info : Info) (s : Supervisor ℕ Launched) (id : String) : Type 0 where
  pub now : Info
  pub found : lookup id s.running ≡ some now
  pub process : now.process ≡ info.process
  pub command : now.payload.command_id ≡ info.payload.command_id
  pub config : now.payload.config ≡ info.payload.config
  pub requested : now.stop_requested_at ≡ info.stop_requested_at
  pub reason : now.stop_reason ≡ info.stop_reason
  pub processed : now.payload.last_processed_count ≡ info.payload.last_processed_count

-- An agent that saves its state and starts again with no instances restores a running instance
-- whose process psutil confirms: with its process, command, configuration, stop request and
-- processed restarts.
pub restore_runtime_state-save_runtime_state :
    (x : Restoration) (live : List ℕ) (now : ℕ) (boot : Option ℕ) (s : Supervisor ℕ Launched)
    (id : String) {info : Info} {p created : ℕ}
    → HasUniqueKeys s.running
    → lookup id s.running ≡ some info
    → info.process ≡ some p
    → has_pid p live ≡ true
    → inspect_process x.paths
        (x.probe p)
        info.payload.process_create_time
        info.payload.executable_path
        x.game
      ≡ same
    → (x.probe p).poll ≡ true
    → (x.probe p).create_time ≡ answer created
    → Restored info
        (restore_runtime_state x
          (save_runtime_state live now boot s)
          (record { running = []; terminated = [] })).0
        id
unfolding restore_runtime_state save_runtime_state last_processed_restart_count get lookup
restore_runtime_state-save_runtime_state x live now boot s id {info = info} {p = p}
      {created = created} u e q lives w poll seen =
    let d = save_running live now s.running [] in
    let ended = save_terminated s.terminated [] in
    let empty : Supervisor ℕ Launched = record { running = []; terminated = [] } in
    let b = boot_changed boot x.boot in
    let saved : lookup id d ≡ some (saved_entry now p info) =
      lookup-save_running live now s.running [] id u ∙ rw (e, q, lives) refl in
    let again = restored_info x id (saved_of now p info) created in
    let back : lookup id (restore_entries x b d (empty, 0)).0.running ≡ some again =
      lookup-restore_entries x b d (empty, 0) id
        (save_running-HasUniqueKeys live now s.running [] tt)
      ∙ rw (saved, restored_at, w, poll, seen) refl in
    record {
      now = again;
      found =
          ap (λ t. lookup id t) (restore_ends-running ended (restore_entries x b d (empty, 0)).0)
          ∙ back;
      process = sym q;
      command = refl;
      config = refl;
      requested = refl;
      reason = refl;
      processed = refl;
    }
