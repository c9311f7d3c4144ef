-- ===== src/Journal/Acknowledgements.antt =====
-- Which rows await the hub's confirmation, and which fence supersedes a command.
use pitlane_agent.Common.{
  ℕ, ◌≤◌, max, min, String, ◌≡◌, refl, Option, none, some, Bool, true, ◌&&◌, str_eq, arith,
  if◌then◌else◌, ltb, find, select, order_by, take, length, length-take-le, All, All-take,
  All-order_by, All-find, All-imp, find_sound, eq_iff, length-order_by, All-of_select,
  order_by-perm, take_of_length-le,
}
use mathlib.Core.List.{Perm}
use pitlane_agent.Common.Int.{pos, ltb_ℤ}
use pitlane_agent.Journal.Types.{ok, Command, Journal, status_rank, Status, parse_status}
use pitlane_agent.Journal.Operations.{
  is_command, confirm, is_unconfirmed, pending_acknowledgements, clamp_limit, superseding_fence,
  last_fence,
}
use pitlane_agent.Journal.Invariant.{IsValid, IsCovered}
use pitlane_agent.Journal.Outcomes.{confirm_found, get_found}

-- A row is pending exactly when the confirmed rank is below the rank of its status.
pub is_unconfirmed_iff :
    (r : Command) → is_unconfirmed r ≡ ltb_ℤ r.confirmed_rank (pos (status_rank r.status))
unfolding is_unconfirmed
is_unconfirmed_iff r = ground arith

-- After a confirmation that is accepted the row is pending exactly if it was pending and the
-- confirmed status lies below the row's own: confirming the row's own status settles it.
pub confirm-is_unconfirmed :
    (j : Journal) (hub id status now : String) (s : Status) {x r : Command} {j' : Journal}
    → find (is_command hub id) j.commands ≡ some x
    → parse_status status ≡ some s
    → confirm j hub id status now ≡ ok (j', r)
    → is_unconfirmed r ≡ (is_unconfirmed x && ltb (status_rank s) (status_rank x.status))
confirm-is_unconfirmed j hub id status now s {x} {r} e t h =
    ground (
      arith,
      confirm_found j hub id e status s now t,
      h,
      is_unconfirmed_iff r,
      is_unconfirmed_iff x,
    )

-- The condition on a row: its hub, and that it is pending.
abbrev pub awaits : String → Command → Bool
awaits hub r = str_eq r.hub_name hub && is_unconfirmed r

-- The pending acknowledgements of a hub are rows of that hub that are pending, as many as the
-- limit allows at most, where a limit below 1 counts as 1 and one above 2000 as 2000.
pub pending_acknowledgements_sound :
    (j : Journal) (hub : String) (limit : ℕ)
    → (All
        (λ r. (r.hub_name ≡ hub) × (is_unconfirmed r ≡ true))
        (pending_acknowledgements j hub limit))
      × (length (pending_acknowledgements j hub limit) ≤ max 1 (min limit 2000))
unfolding pending_acknowledgements
pending_acknowledgements_sound j hub limit =
    let chosen = order_by (λ r. r.updated_at) (select (awaits hub) j.commands) in
    (
      All-imp (λ r. awaits hub r ≡ true) (λ r. (r.hub_name ≡ hub) × (is_unconfirmed r ≡ true))
          (take (clamp_limit limit) chosen)
          (λ r t. (ground (arith, t, eq_iff r.hub_name hub), ground (arith, t)))
          (All-take (λ r. awaits hub r ≡ true) (clamp_limit limit) chosen
            (All-order_by (λ r. awaits hub r ≡ true) (λ r. r.updated_at)
              (select (awaits hub) j.commands) (All-of_select (awaits hub) j.commands))),
      length-take-le (clamp_limit limit) chosen,
    )

-- The hub has confirmed of this row of its own less than what the row has reached.
abbrev pub is_open : String → Command → Bool
is_open hub r = str_eq r.hub_name hub && ltb_ℤ r.confirmed_rank (pos (status_rank r.status))

awaits-is_open : (hub : String) → awaits hub ≡ is_open hub
awaits-is_open hub = λ i r. str_eq r.hub_name hub && is_unconfirmed_iff r i

-- When the rows of the hub whose confirmed rank is below the rank of their status are no more than the
-- limit allows, the pending acknowledgements are exactly these rows, up to order.
pub pending_acknowledgements_complete :
    (j : Journal) (hub : String) (limit : ℕ)
    → length (select (is_open hub) j.commands) ≤ max 1 (min limit 2000)
    → Perm (pending_acknowledgements j hub limit) (select (is_open hub) j.commands)
unfolding pending_acknowledgements
pending_acknowledgements_complete j hub limit = rw (← awaits-is_open hub) (λ fits.
    let rows = select (awaits hub) j.commands in
    let chosen = order_by (λ r. r.updated_at) rows in
    let all : take (clamp_limit limit) chosen ≡ chosen =
      take_of_length-le (clamp_limit limit) chosen
        (omega (arith, length-order_by (λ r. r.updated_at) rows, fits)) in
    rw all (order_by-perm (λ r. r.updated_at) rows))

-- In a valid journal the target of a journaled command has a last fence, which is not below the
-- command's own; the command is superseded exactly when it is larger, and then by it.
pub superseding_fence_iff :
    (j : Journal) (hub id : String) {r : Command}
    → IsValid j
    → find (is_command hub id) j.commands ≡ some r
    → (last : ℕ) × (last_fence j r.hub_name r.target_key ≡ some last)
      × (r.fence ≤ last)
      × (superseding_fence j hub id ≡ ok (if ltb r.fence last then some last else none))
unfolding superseding_fence
superseding_fence_iff j hub id {r} v e =
    go (last_fence j r.hub_name r.target_key) refl
      (All-find (IsCovered j) (is_command hub id) j.commands v.covered e)
  where
    owner : r.hub_name ≡ hub
    owner = ground (arith, find_sound (is_command hub id) j.commands e, eq_iff r.hub_name hub)

    go :
        (o : Option ℕ)
        → last_fence j r.hub_name r.target_key ≡ o
        → IsCovered j r
        → (last : ℕ) × (last_fence j r.hub_name r.target_key ≡ some last)
          × (r.fence ≤ last)
          × (superseding_fence j hub id ≡ ok (if ltb r.fence last then some last else none))
    go none q c = absurd (rw q at c)
    go (some last) q c = (last, q, rw q at c, rw (get_found j hub id e) (rw (← owner) (rw q)))
