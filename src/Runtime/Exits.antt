-- ===== src/Runtime/Exits.antt =====
-- Every process ends once: the invariant of the supervisor, and what an exit leaves behind.
use pitlane_agent.Common.{
  ◌⊎◌, inl, inr, Option-cases, String, ◌≡◌, refl, Option, none, some, true, arith, eq_iff,
  str_eq_refl,
}
use pitlane_agent.Common.Int.{ℤ}
use pitlane_agent.Common.Dict.{lookup, insert, lookup-insert, lookup-remove}
use pitlane_agent.Runtime.Supervisor.{
  Poll, alive, exited, RuntimeInfo, TerminalInfo, Supervisor, register, restore_terminated,
  request_stop, observe_exit, forget, IsDisjoint, stop_requested, terminal_of, recorded_code,
  or_text,
}

-- One call of a method of the supervisor.
pub data Call {Process Payload : Type 0} (poll : Process → Poll) (s : Supervisor Process Payload)
    : Supervisor Process Payload → Type 0 where
  by_register :
      (id : String) (info : RuntimeInfo Process Payload) → Call poll s (register id info s)
  by_restore : (id : String) (t : TerminalInfo Payload) → Call poll s (restore_terminated id t s)
  by_request : (id reason now : String) → Call poll s (request_stop id reason now s).0
  by_observe :
      (id : String) (code : Option ℤ) (now : String)
      → Call poll s (observe_exit poll id code now s).0
  by_forget : (id : String) → Call poll s (forget id s).0

Poll-cases : (p : Poll) → (p ≡ alive) ⊎ ((c : Option ℤ) × (p ≡ exited c))
Poll-cases alive = inl refl
Poll-cases (exited c) = inr (c, refl)

module _ {Process Payload : Type 0} (s : Supervisor Process Payload) (v : IsDisjoint s) where
  register-IsDisjoint :
      (id : String) (info : RuntimeInfo Process Payload) → IsDisjoint (register id info s)
  unfolding register
  register-IsDisjoint id info = record {
    apart = λ j.
        ground
          (arith, v.apart j, lookup-insert id j info s.running, lookup-remove id j s.terminated);
  }

  restore_terminated-IsDisjoint :
      (id : String) (t : TerminalInfo Payload) → IsDisjoint (restore_terminated id t s)
  unfolding restore_terminated
  restore_terminated-IsDisjoint id t = record {
    apart = λ j. ground (arith, v.apart j, lookup-insert id j t s.terminated, eq_iff id j);
  }

  request_stop-IsDisjoint : (id reason now : String) → IsDisjoint (request_stop id reason now s).0
  unfolding request_stop
  request_stop-IsDisjoint id reason now = record {
    apart = λ j. elim (Option-cases (lookup id s.running)) [
      | inl e ↦ rw (e, request_stop) (v.apart j)
      | inr (info, e) ↦
          rw (e, request_stop)
            (ground (
              arith,
              v.apart j,
              e,
              eq_iff id j,
              lookup-insert id j (stop_requested reason now info) s.running,
            ))
    ];
  }

  observe_exit-IsDisjoint :
      (poll : Process → Poll) (id : String) (code : Option ℤ) (now : String)
      → IsDisjoint (observe_exit poll id code now s).0
  unfolding observe_exit
  observe_exit-IsDisjoint poll id code now = record {
    apart = λ j. elim (Option-cases (lookup id s.running)) [
      | inl e ↦ rw (e, observe_exit) (v.apart j)
      | inr (info, e) ↦ elim (Option-cases info.process) [
        | inl e' ↦ rw (e, e', observe_exit) (v.apart j)
        | inr (p, e') ↦ elim (Poll-cases (poll p)) [
          | inl a ↦ rw (e, e', a, observe_exit) (v.apart j)
          | inr (polled, x) ↦
              let t = terminal_of info (recorded_code code info.exit_code_available polled) now in
              rw (e, e', x, observe_exit)
                (ground (
                  arith,
                  v.apart j,
                  lookup-remove id j s.running,
                  lookup-insert id j t s.terminated,
                ))
        ]
      ]
    ];
  }

  forget-IsDisjoint : (id : String) → IsDisjoint (forget id s).0
  unfolding forget
  forget-IsDisjoint id = record {
    apart = λ j. ground (arith, v.apart j, lookup-remove id j s.terminated);
  }

-- Every method keeps running and terminated instances apart.
pub Call-IsDisjoint :
    {Process Payload : Type 0} (poll : Process → Poll) {s t : Supervisor Process Payload}
    → IsDisjoint s
    → Call poll s t
    → IsDisjoint t
Call-IsDisjoint poll {s} v (by_register id info) = register-IsDisjoint s v id info
Call-IsDisjoint poll {s} v (by_restore id t) = restore_terminated-IsDisjoint s v id t
Call-IsDisjoint poll {s} v (by_request id reason now) = request_stop-IsDisjoint s v id reason now
Call-IsDisjoint poll {s} v (by_observe id code now) = observe_exit-IsDisjoint s v poll id code now
Call-IsDisjoint poll {s} v (by_forget id) = forget-IsDisjoint s v id

module _ {Process Payload : Type 0} (poll : Process → Poll) (s : Supervisor Process Payload)
    (id : String) {info : RuntimeInfo Process Payload} {p : Process} {polled : Option ℤ} where
  -- An exit that follows a stop request is recorded with what the instance was started with, the
  -- reason of the request, the time of the first request, and, where exit codes are available, the
  -- code that was polled, as an exit of the process seen now; the instance leaves the running ones, and a
  -- later observation, whatever code it is given, returns the first one and changes nothing.
  pub observe_exit_once :
      (reason requested now later : String) (code : Option ℤ)
      → lookup id s.running ≡ some info
      → info.process ≡ some p
      → poll p ≡ exited polled
      → info.exit_code_available ≡ true
      → let s₁ = (request_stop id reason requested s).0 in
        let (s₂, seen) = observe_exit poll id none now s₁ in
        let t : TerminalInfo Payload = record {
          payload = info.payload;
          stop_requested_at = or_text info.stop_requested_at requested;
          stop_reason = some reason;
          exit_code = polled;
          exit_observed_at = now;
          exit_origin = "process_exit";
        } in
        (seen ≡ some t)
        × (lookup id s₂.running ≡ none)
        × (observe_exit poll id code later s₂ ≡ (s₂, some t))
  unfolding request_stop observe_exit
  observe_exit_once reason requested now later code e q x available =
      let info' = stop_requested reason requested info in
      let t = terminal_of info' polled now in
      ground (
        arith,
        e,
        q,
        x,
        available,
        str_eq_refl id,
        lookup-insert id id info' s.running,
        lookup-remove id id (insert id info' s.running),
        lookup-insert id id t s.terminated,
      )
