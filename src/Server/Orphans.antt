-- ===== src/Server/Orphans.antt =====
-- Which running instance a living process belongs to, and what the pieces of an operation do to it.
use pitlane_agent.Common.{
  ℕ, String, ◌≡◌, refl, sym, ◌∙◌, inl, inr, Option, none, some, true, false, List, [], ◌∷◌, not,
  arith, Option-cases, Bool-cases, eq_iff, str_eq, ◌==◌, any, select, if◌then◌else◌,
}
use pitlane_agent.Common.Int.{ℤ}
use pitlane_agent.Common.Dict.{lookup, insert, lookup-insert, lookup-remove}
use pitlane_agent.Telemetry.Log.{LogState}
use pitlane_agent.Runtime.Supervisor.{Supervisor, request_stop, observe_exit, stop_requested}
use pitlane_agent.Server.Instances.{Launched, Info, has_pid, poll, set_observation, without}

abbrev pub process_in : Option Info → Option ℕ
process_in none = none
process_in (some info) = info.process

-- The process of a running instance.
abbrev pub process_of : String → Supervisor ℕ Launched → Option ℕ
process_of id s = process_in (lookup id s.running)

-- The supervisor `s` with the living processes `live`: each of these belongs to one running instance.
pub record IsOwned (s : Supervisor ℕ Launched) (live : List ℕ) : Type 0 where
  pub owner : (p : ℕ) → has_pid p live ≡ true → (id : String) × (process_of id s ≡ some p)
  pub single :
      (p : ℕ) (i j : String)
      → has_pid p live ≡ true
      → process_of i s ≡ some p
      → process_of j s ≡ some p
      → i ≡ j

-- Processes and instances go, together; none comes.
pub record Shrinks (s : Supervisor ℕ Launched) (live : List ℕ) (t : Supervisor ℕ Launched)
    (live' : List ℕ) : Type 0 where
  pub old : (p : ℕ) (j : String) → process_of j t ≡ some p → process_of j s ≡ some p
  pub fewer : (p : ℕ) → has_pid p live' ≡ true → has_pid p live ≡ true
  pub keeps :
      (p : ℕ) (j : String)
      → process_of j s ≡ some p
      → has_pid p live' ≡ true
      → process_of j t ≡ some p

pub Shrinks-IsOwned :
    {s t : Supervisor ℕ Launched} {live live' : List ℕ}
    → Shrinks s live t live'
    → IsOwned s live
    → IsOwned t live'
Shrinks-IsOwned h v = record {
  owner = λ p l. let (id, e) = v.owner p (h.fewer p l) in (id, h.keeps p id e l);
  single = λ p i j l x y. v.single p i j (h.fewer p l) (h.old p i x) (h.old p j y);
}

pub Shrinks-trans :
    {s t u : Supervisor ℕ Launched} {l m n : List ℕ}
    → Shrinks s l t m
    → Shrinks t m u n
    → Shrinks s l u n
Shrinks-trans h k = record {
  old = λ p j e. h.old p j (k.old p j e);
  fewer = λ p e. h.fewer p (k.fewer p e);
  keeps = λ p j e l. k.keeps p j (h.keeps p j e (k.fewer p l)) l;
}

-- A change that keeps the process of each instance.
pub same-Shrinks :
    (s t : Supervisor ℕ Launched) (live : List ℕ)
    → ((j : String) → process_of j t ≡ process_of j s)
    → Shrinks s live t live
same-Shrinks s t live h = record {
  old = λ p j e. sym (h j) ∙ e;
  fewer = λ p e. e;
  keeps = λ p j e l. h j ∙ e;
}

same_process :
    (id : String) (info info' : Info) (s : Supervisor ℕ Launched)
    → lookup id s.running ≡ some info
    → info'.process ≡ info.process
    → (j : String) → process_in (lookup j (insert id info' s.running)) ≡ process_of j s
same_process id info info' s e q j =
    ground (arith, e, q, lookup-insert id j info' s.running, eq_iff id j)

pub set_observation-Shrinks :
    (id : String) (facts : Option LogState) (s : Supervisor ℕ Launched) (live : List ℕ)
    → Shrinks s live (set_observation id facts s) live
unfolding set_observation
set_observation-Shrinks id none s live = same-Shrinks s s live (λ j. refl)
set_observation-Shrinks id (some facts) s live = elim (Option-cases (lookup id s.running)) [
  | inl n ↦ rw (n, set_observation) (same-Shrinks s s live (λ j. refl))
  | inr (info, e) ↦
      rw (e, set_observation)
        (same-Shrinks s _ live (
          same_process id info
            (record info { payload = record info.payload { game_observation = some facts } }) s e
            refl))
]

pub request_stop-Shrinks :
    (id reason now : String) (s : Supervisor ℕ Launched) (live : List ℕ)
    → Shrinks s live (request_stop id reason now s).0 live
unfolding request_stop
request_stop-Shrinks id reason now s live = elim (Option-cases (lookup id s.running)) [
  | inl n ↦ rw (n, request_stop) (same-Shrinks s s live (λ j. refl))
  | inr (info, e) ↦
      rw (e, request_stop)
        (same-Shrinks s _ live (same_process id info (stop_requested reason now info) s e refl))
]

-- An exit is observed of a process that does not live.
pub observe_exit-Shrinks :
    (code : ℕ → Option ℤ) (id : String) (c : Option ℤ) (now : String) (s : Supervisor ℕ Launched)
    (live : List ℕ)
    → Shrinks s live (observe_exit (poll code live) id c now s).0 live
unfolding observe_exit poll
observe_exit-Shrinks code id c now s live = elim (Option-cases (lookup id s.running)) [
  | inl n ↦ rw (n, observe_exit) (same-Shrinks s s live (λ j. refl))
  | inr (info, e) ↦ elim (Option-cases info.process) [
    | inl n ↦ rw (e, n, observe_exit) (same-Shrinks s s live (λ j. refl))
    | inr (p, q) ↦ elim (Bool-cases (has_pid p live)) [
      | inl t ↦ rw (e, q, observe_exit, poll, t) (same-Shrinks s s live (λ j. refl))
      | inr f ↦
          rw (e, q, observe_exit, poll, f)
            (record {
              old = λ r j h. ground (arith, h, lookup-remove id j s.running);
              fewer = λ r h. h;
              keeps = λ r j h l. elim (Bool-cases (str_eq id j)) [
                | inl same ↦ absurd (ground (arith, e, q, h, l, f, same, eq_iff id j))
                | inr other ↦ ground (arith, h, other, lookup-remove id j s.running)
              ];
            })
    ]
  ]
]

pub has_pid-select :
    (p q : ℕ) (live : List ℕ)
    → has_pid q (select (λ r. not (r == p)) live) ≡ (if q == p then false else has_pid q live)
unfolding any select
has_pid-select p q [] = ground arith
has_pid-select p q (r ∷ live) = ground (arith, has_pid-select p q live)

pub without-Shrinks :
    (p : Option ℕ) (s : Supervisor ℕ Launched) (live : List ℕ) → Shrinks s live s (without p live)
without-Shrinks none s live = same-Shrinks s s live (λ j. refl)
without-Shrinks (some p) s live = record {
  old = λ q j e. e;
  fewer = λ q e. ground (arith, e, has_pid-select p q live);
  keeps = λ q j e l. e;
}
