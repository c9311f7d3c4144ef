-- ===== src/Journal/Receipts.antt =====
-- What `receive` makes of a message whose key is new.
use pitlane_agent.Common.{
  String, ◌≡◌, refl, none, some, true, false, arith, ◌∷◌, ◌&&◌, str_eq, str_eq_refl, ltb, find,
  if◌then◌else◌,
}
use pitlane_agent.Common.Int.{negsuc}
use pitlane_agent.Common.Json.{Fields}
use pitlane_agent.Journal.Types.{
  received, ok, err, Command, Journal, stale_command, overflow_error, integrity_error,
}
use pitlane_agent.Journal.Contract.{Python, Normalized, normalize_command}
use pitlane_agent.Journal.Operations.{
  is_command, has_key, last_fence, is_stale, max_integer, new_command, receive, get,
}
use pitlane_agent.Journal.Invariant.{is_some}
use pitlane_agent.Journal.Outcomes.{accepted, record_new_lem}
use pitlane_agent.Journal.Preserves.{last_fence-put_fence}

-- The command is journaled as `r`, received and not confirmed, and found by its identifier and by its key;
-- its fence is the last one of its target; other rows and other targets are as before.
pub record IsJournaled (n : Normalized) (j after : Journal) (r : Command) : Type 0 where
  pub by_id : get after n.hub_name n.command_id ≡ ok r
  pub by_key : find (has_key n.hub_name n.idempotency_key) after.commands ≡ some r
  pub command :
      (r.hub_name ≡ n.hub_name)
      × (r.command_id ≡ n.command_id)
      × (r.idempotency_key ≡ n.idempotency_key)
      × (r.target_key ≡ n.target_key)
      × (r.fence ≡ n.fence)
      × (r.payload_json ≡ n.payload_json)
  pub new : (r.status ≡ received) × (r.confirmed_rank ≡ negsuc 0)
  pub fence : last_fence after n.hub_name n.target_key ≡ some n.fence
  pub other_fences :
      (hub target : String)
      → (str_eq n.hub_name hub && str_eq n.target_key target) ≡ false
      → last_fence after hub target ≡ last_fence j hub target
  pub other_rows :
      (hub id : String)
      → (str_eq n.hub_name hub && str_eq n.command_id id) ≡ false
      → find (is_command hub id) after.commands ≡ find (is_command hub id) j.commands

accepted-IsJournaled :
    (j : Journal) (n : Normalized) (now : String)
    → IsJournaled n j (accepted j n now) (new_command n now)
unfolding accepted get find
accepted-IsJournaled j n now =
    let fences = last_fence-put_fence j n (new_command n now ∷ j.commands) now in
    record {
      by_id = rw (str_eq_refl n.hub_name, str_eq_refl n.command_id) refl;
      by_key = rw (str_eq_refl n.hub_name, str_eq_refl n.idempotency_key) refl;
      command = (refl, refl, refl, refl, refl, refl);
      new = (refl, refl);
      fence =
          ground (
            arith,
            fences n.hub_name n.target_key,
            str_eq_refl n.hub_name,
            str_eq_refl n.target_key,
          );
      other_fences = λ hub target e. ground (arith, fences hub target, e);
      other_rows = λ hub id e. ground (arith, e);
    }

-- What `receive` does with a message that is accepted as a command whose key is not journaled: a
-- fence that is not above the last one of the target is stale; then a fence that is no INTEGER, and a
-- command identifier that the hub has used under another key, raise what sqlite3 raises, which is no
-- contract error; else the command is journaled as received and not confirmed, is found by its
-- identifier and by its key, its fence is the last one of its target, and no other row or fence changes.
pub receive_new_key :
    (py : Python) (j : Journal) (hub : String) (m : Fields) (now : String) (n : Normalized)
    → normalize_command py hub m ≡ ok n
    → find (has_key n.hub_name n.idempotency_key) j.commands ≡ none
    → (after : Journal) × (r : Command) × (receive py j hub m now ≡ (
        if is_stale (last_fence j n.hub_name n.target_key) n.fence
        then err stale_command
        else if ltb max_integer n.fence
        then err overflow_error
        else if is_some (find (is_command n.hub_name n.command_id) j.commands)
        then err integrity_error
        else ok (after, r, true)))
      × IsJournaled n j after r
unfolding receive
receive_new_key py j hub m now n p free = (
  accepted j n now,
  new_command n now,
  ground (arith, p, free, record_new_lem j n now),
  accepted-IsJournaled j n now,
)
