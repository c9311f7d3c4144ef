-- ===== src/Journal/Effects.antt =====
-- `mark_executing`, `mark_terminal` and `confirm` change one row at most, and never backwards.
use pitlane_agent.Common.{
  ◌≤◌, String, ◌≡◌, Option, some, true, inl, inr, arith, Bool-cases, Option-cases, find,
}
use pitlane_agent.Common.Int.{ℤ, pos, ◌≤ℤ◌, max_ℤ}
use pitlane_agent.Common.Json.{Value, object}
use pitlane_agent.Journal.Types.{Status, executing, is_terminal, status_rank, ok, Command, Journal}
use pitlane_agent.Journal.Contract.{Python}
use pitlane_agent.Journal.Operations.{
  is_command, set_command, set_status, set_terminal, set_confirmed, mark_terminal, mark_executing,
  is_integer, confirm,
}
use pitlane_agent.Journal.Invariant.{RowIsValid}
use pitlane_agent.Journal.Outcomes.{
  KeepsIdentity, mark_executing_missing, mark_terminal_missing, confirm_missing,
  mark_terminal_arguments, confirm_arguments, mark_executing_found, mark_terminal_found,
  confirm_found, set_status-identity, set_terminal-identity, set_confirmed-identity,
}

-- From the row `x` to the row `y` the status does not fall, and a terminal row keeps its answer.
pub record Advances (x y : Command) : Type 0 where
  pub rank : status_rank x.status ≤ status_rank y.status
  pub confirmed : x.confirmed_rank ≤ℤ y.confirmed_rank
  pub status : is_terminal x.status ≡ true → y.status ≡ x.status
  pub response_json : is_terminal x.status ≡ true → y.response_json ≡ x.response_json
  pub status_code : is_terminal x.status ≡ true → y.status_code ≡ x.status_code

pub data Effect (j : Journal) (hub id : String) (j' : Journal) (r : Command) : Type 0 where
  kept : find (is_command hub id) j.commands ≡ some r → j' ≡ j → Effect j hub id j' r
  changed :
      (f : Command → Command) (x : Command)
      → find (is_command hub id) j.commands ≡ some x
      → KeepsIdentity f
      → (RowIsValid x → RowIsValid (f x))
      → Advances x (f x)
      → j' ≡ set_command j hub id f
      → r ≡ f x
      → Effect j hub id j' r

module _ (j : Journal) (hub id : String) {j' : Journal} {r : Command} where
  pub mark_executing-Effect :
      (now : String) → mark_executing j hub id now ≡ ok (j', r) → Effect j hub id j' r
  mark_executing-Effect now h = elim (Option-cases (find (is_command hub id) j.commands)) [
    | inl e ↦ absurd (ground (arith, h, mark_executing_missing j hub id e now))
    | inr (x, e) ↦ elim (Bool-cases (is_terminal x.status)) [
      | inl t ↦
          kept (ground (arith, e, t, h, mark_executing_found j hub id e now))
            (ground (arith, t, h, mark_executing_found j hub id e now))
      | inr n ↦
          changed (set_status executing now) x e (set_status-identity executing now)
            (λ w. ground (arith, n)) (ground (arith, n))
            (ground (arith, n, h, mark_executing_found j hub id e now))
            (ground (arith, n, h, mark_executing_found j hub id e now))
    ]
  ]

  pub mark_terminal-Effect :
      (py : Python) (status : Status) (body : Value) (code : ℤ) (ec em : Option String)
      (now : String)
      → mark_terminal py j hub id status body code ec em now ≡ ok (j', r)
      → Effect j hub id j' r
  mark_terminal-Effect py status body code ec em now h =
      let (t, d, q) = mark_terminal_arguments py j hub id status body code ec em now h in
      let h' : mark_terminal py j hub id status (object d) code ec em now ≡ ok (j', r) =
        rw (← q) h in
      let set = set_terminal status (py.canonical_json (object d)) code ec em now in
      elim (Option-cases (find (is_command hub id) j.commands)) [
        | inl e ↦
            absurd
              (ground (arith, h', mark_terminal_missing j hub id e py status d code ec em now t))
        | inr (x, e) ↦
            let found = mark_terminal_found j hub id e py status d code ec em now t in
            elim (Bool-cases (is_terminal x.status)) [
              | inl t' ↦ kept (ground (arith, e, t', h', found)) (ground (arith, t', h', found))
              | inr n ↦ elim (Bool-cases (is_integer code)) [
                | inr f ↦ absurd (ground (arith, n, f, h', found))
                | inl fits ↦
                    changed set x e
                      (set_terminal-identity status (py.canonical_json (object d)) code ec em now)
                      (λ w. ground (arith, n, t)) (ground (arith, n, t))
                      (ground (arith, n, fits, h', found)) (ground (arith, n, fits, h', found))
              ]
            ]
      ]

  pub confirm-Effect :
      (status now : String) → confirm j hub id status now ≡ ok (j', r) → Effect j hub id j' r
  confirm-Effect status now h =
      let (s, t) = confirm_arguments j hub id status now h in
      elim (Option-cases (find (is_command hub id) j.commands)) [
        | inl e ↦ absurd (ground (arith, h, confirm_missing j hub id e status s now t))
        | inr (x, e) ↦
            let found = confirm_found j hub id e status s now t in
            let rank : ℤ = max_ℤ x.confirmed_rank (pos (status_rank s)) in
            changed (set_confirmed rank now) x e (set_confirmed-identity rank now)
              (λ w. ground (arith, w.confirmed, h, found)) (ground arith) (ground (arith, h, found))
              (ground (arith, h, found))
      ]
