-- ===== src/Server/Adoption.antt =====
-- What a restart of the agent restores.
use pitlane_agent.Common.{
  ℕ, String, ◌≡◌, refl, sym, ◌∙◌, ◌⊎◌, inl, inr, Option, none, some, Bool, true, [], ◌∷◌, arith,
  Option-cases, Bool-cases, eq_iff, str_eq, if◌then◌else◌,
}
use pitlane_agent.Common.Dict.{Dict, lookup, insert, lookup-insert}
use pitlane_agent.Runtime.Supervisor.{TerminalInfo, Supervisor, register, restore_terminated}
use pitlane_agent.Server.Instances.{Launched, Info}
use pitlane_agent.Server.Identity.{
  answer, Answer-cases, Verdict, same, gone, unsure, IsSame, inspect_process_same,
}
use pitlane_agent.Server.Persistence.{
  Saved, Entry, malformed, entry, StateFile, unreadable, first_version, later_version, Restoration,
  restored_info, adopt, verdict, restore_entry, restore_entries, restore_ends, restore_payload,
  restore_runtime_state, boot_changed, missing_process_terminal,
}

-- The entries of the running instances that a file holds.
abbrev pub entries_of : StateFile → Dict Entry
entries_of unreadable = []
entries_of (first_version running) = running
entries_of (later_version boot running ended) = running

abbrev pub Listed : String → Saved → Dict Entry → Type 0
Listed id v [] = ⊥
Listed id v ((j, e) ∷ rest) = ((j ≡ id) × (e ≡ entry v)) ⊎ Listed id v rest

-- A running instance that comes from an entry of the file, whose process is not told from the saved one.
pub record Adopted (x : Restoration) (d : Dict Entry) (id : String) (info : Info) : Type 0 where
  pub saved : Saved
  pub created : ℕ
  pub listed : Listed id saved d
  pub genuine :
      IsSame x.paths
        (x.probe saved.pid)
        saved.launched.process_create_time
        saved.launched.executable_path
        x.game
  pub lives : (x.probe saved.pid).poll ≡ true
  pub seen : (x.probe saved.pid).create_time ≡ answer created
  pub result : info ≡ restored_info x id saved created

pub Verdict-cases : (v : Verdict) → (v ≡ same) ⊎ ((v ≡ gone) ⊎ (v ≡ unsure))
Verdict-cases same = inl refl
Verdict-cases gone = inr (inl refl)
Verdict-cases unsure = inr (inr refl)

later_Adopted :
    (x : Restoration) (j : String) (e : Entry) (d : Dict Entry) {id : String} {info : Info}
    → Adopted x d id info
    → Adopted x ((j, e) ∷ d) id info
later_Adopted x j e d a = record {
  saved = a.saved;
  created = a.created;
  listed = inr a.listed;
  genuine = a.genuine;
  lives = a.lives;
  seen = a.seen;
  result = a.result;
}

pub restore_terminated-running :
    (id : String) (t : TerminalInfo Launched) (s : Supervisor ℕ Launched)
    → (restore_terminated id t s).running ≡ s.running
unfolding restore_terminated
restore_terminated-running id t s = elim (Option-cases (lookup id s.running)) [
  | inl n ↦ rw (n, restore_terminated) refl
  | inr (i, p) ↦ rw (p, restore_terminated) refl
]

some_injective : {a b : Info} → some a ≡ some b → a ≡ b
some_injective e = cc

-- An entry adds at most its own instance to the running ones.
adopt_lem :
    (x : Restoration) (id : String) (v : Saved) (r : Supervisor ℕ Launched × ℕ) (d : Dict Entry)
    (j : String) {info : Info}
    → verdict x v ≡ same
    → lookup j (adopt x id v r).0.running ≡ some info
    → (lookup j r.0.running ≡ some info) ⊎ Adopted x ((id, entry v) ∷ d) j info
unfolding register
adopt_lem x id v r d j {info = info} w e = elim (Bool-cases (x.probe v.pid).poll) [
  | inr dead ↦ inl (rw (dead) at e)
  | inl lives ↦ elim (Answer-cases (x.probe v.pid).create_time) [
    | inr (inl n) ↦ inl (rw (lives, n) at e)
    | inr (inr n) ↦ inl (rw (lives, n) at e)
    | inl (created, at_time) ↦
        let new = restored_info x id v created in
        let found : lookup j (insert id new r.0.running) ≡ some info = rw (lives, at_time) at e in
        let split : (if str_eq id j then some new else lookup j r.0.running) ≡ some info =
          sym (lookup-insert id j new r.0.running) ∙ found in
        elim (Bool-cases (str_eq id j)) [
          | inr other ↦ inl (rw other at split)
          | inl own ↦
              let here : id ≡ j = ground (arith, own, eq_iff id j) in
              let it : some new ≡ some info = rw own at split in
              inr (record {
                saved = v;
                created = created;
                listed = inl (here, refl);
                genuine =
                    inspect_process_same x.paths (x.probe v.pid) v.launched.process_create_time
                      v.launched.executable_path x.game w;
                lives = lives;
                seen = at_time;
                result = rw (← here) (some_injective (sym it));
              })
        ]
  ]
]

restore_entry_lem :
    (x : Restoration) (b : Option Bool) (id : String) (e : Entry) (r : Supervisor ℕ Launched × ℕ)
    (d : Dict Entry) (j : String) {info : Info}
    → lookup j (restore_entry x b id e r).0.running ≡ some info
    → (lookup j r.0.running ≡ some info) ⊎ Adopted x ((id, e) ∷ d) j info
unfolding restore_entry
restore_entry_lem x b id malformed r d j h = inl h
restore_entry_lem x b id (entry v) r d j h = elim (Verdict-cases (verdict x v)) [
  | inl w ↦ adopt_lem x id v r d j w (rw (w, restore_entry) at h)
  | inr (inl w) ↦ inl (
      rw
        (
          w,
          restore_entry,
          restore_terminated-running id (missing_process_terminal id v b x.observed_at) r.0,
        )
        at h)
  | inr (inr w) ↦ inl (rw (w, restore_entry) at h)
]

restore_entries_lem :
    (x : Restoration) (b : Option Bool) (d : Dict Entry) (r : Supervisor ℕ Launched × ℕ)
    (j : String) {info : Info}
    → lookup j (restore_entries x b d r).0.running ≡ some info
    → (lookup j r.0.running ≡ some info) ⊎ Adopted x d j info
unfolding restore_entries
restore_entries_lem x b [] r j h = inl h
restore_entries_lem x b ((id, e) ∷ d) r j h =
    elim (restore_entries_lem x b d (restore_entry x b id e r) j h) [
      | inr a ↦ inr (later_Adopted x id e d a)
      | inl before ↦ restore_entry_lem x b id e r d j before
    ]

pub restore_ends-running :
    (d : Dict (Option (TerminalInfo Launched))) (s : Supervisor ℕ Launched)
    → (restore_ends d s).running ≡ s.running
unfolding restore_ends
restore_ends-running [] s = refl
restore_ends-running ((id, none) ∷ d) s = restore_ends-running d s
restore_ends-running ((id, some t) ∷ d) s =
    restore_ends-running d (restore_terminated id t s) ∙ restore_terminated-running id t s

payload_lem :
    (x : Restoration) (b : Option Bool) (d : Dict Entry)
    (ended : Dict (Option (TerminalInfo Launched))) (s : Supervisor ℕ Launched) (j : String)
    {info : Info}
    → lookup j (restore_payload x b d ended s).0.running ≡ some info
    → (lookup j s.running ≡ some info) ⊎ Adopted x d j info
payload_lem x b d ended s j h =
    restore_entries_lem x b d (s, 0) j
      (rw (restore_ends-running ended (restore_entries x b d (s, 0)).0) at h)

-- Whatever the file holds, an instance runs after the restoration only if it ran before, or if the file
-- has an entry of it whose process lives and is not told from the saved one: where a creation time was
-- saved, it was created within a second of it; where an executable was saved, it runs this one; and
-- where none was, a game is configured that has its name, or no name. The instance is then what the
-- entry says.
pub restore_adopts_only :
    (x : Restoration) (f : StateFile) (s : Supervisor ℕ Launched) (j : String) {info : Info}
    → lookup j (restore_runtime_state x f s).0.running ≡ some info
    → (lookup j s.running ≡ some info) ⊎ Adopted x (entries_of f) j info
unfolding restore_runtime_state
restore_adopts_only x unreadable s j h = inl h
restore_adopts_only x (first_version d) s j h = payload_lem x (boot_changed none x.boot) d [] s j h
restore_adopts_only x (later_version b d ended) s j h =
    payload_lem x (boot_changed b x.boot) d ended s j h
