-- ===== src/Runtime/Session.antt =====
-- agent/services/runtime_state_session.py: one hub connection's sync and changes.
use pitlane_agent.Common.{
  ℕ, ◌≤◌, ◌<◌, ◌≡◌, some, Bool, true, false, List, [], ◌∷◌, ◌++◌, arith, if◌then◌else◌, leb,
}
use pitlane_agent.Common.Json.{Fields}
use pitlane_agent.Journal.Contract.{Python}
use pitlane_agent.Runtime.Tracker.{Tracker, Snapshot, observe, observe_again}

pub data Mode : Type 0 where
  sync change : Mode

-- `sent` is what the socket took, in order.
pub record Session : Type 0 where
  pub tracker : Tracker
  pub last_sent_revision : ℕ
  pub sent : List (Mode × Snapshot)

-- A method returns a Boolean, or the socket raised.
pub data Sent : Type 0 where
  returned : Bool → Sent
  raised : Sent

-- `_send`; `open` says whether the socket takes the frame.
unfoldable pub send : Bool → Mode → Snapshot → Session → Sent × Session
send socket mode observed s =
    if socket
    then (
      returned true,
      record s {
        last_sent_revision = observed.runtime_revision;
        sent = s.sent ++ (mode, observed) ∷ [];
      },
    )
    else (raised, s)

unfoldable pub send_sync : Python → Bool → Fields → Session → Sent × Session
unfolding send
send_sync py socket state s =
    let (t, observed) = observe py state s.tracker in
    send socket sync observed (record s { tracker = t })

unfoldable pub send_if_changed : Python → Bool → Fields → Session → Sent × Session
unfolding send
send_if_changed py socket state s =
    let (t, observed) = observe py state s.tracker in
    let s' = record s { tracker = t } in
    if leb observed.runtime_revision s.last_sent_revision
    then (returned false, s')
    else send socket change observed s'

-- What was sent last is a revision of the tracker.
pub record IsCurrent (s : Session) : Type 0 where
  pub bounded : s.last_sent_revision ≤ s.tracker.revision

observe-le :
    (py : Python) (d : Fields) (t : Tracker)
    → (t.revision ≤ (observe py d t).0.revision)
      × ((observe py d t).1.runtime_revision ≡ (observe py d t).0.revision)
unfolding observe
observe-le py d t = ground arith

-- Both methods keep what was sent within the tracker's revisions, also when the socket raises.
pub send-IsCurrent :
    (py : Python) (socket : Bool) (d : Fields) (s : Session)
    → IsCurrent s
    → IsCurrent (send_sync py socket d s).1 × IsCurrent (send_if_changed py socket d s).1
unfolding send_sync send_if_changed
send-IsCurrent py socket d s v = ground (arith, observe-le py d s.tracker)

-- Where the revision of a state is above what was sent: if the socket raises, nothing is sent; the
-- next time the socket takes it, one change is sent, with that revision and this state; and once
-- more the same state sends nothing.
pub send_if_changed_retries :
    (py : Python) (d : Fields) (s : Session)
    → IsCurrent s
    → s.last_sent_revision < (observe py d s.tracker).0.revision
    → let failed = send_if_changed py false d s in
      let later = send_if_changed py true d failed.1 in
      let again = send_if_changed py true d later.1 in
      (failed.0 ≡ raised)
      × (failed.1.sent ≡ s.sent)
      × (later.0 ≡ returned true)
      × (later.1.sent
          ≡ s.sent
            ++ (
              change,
              record {
                agent_boot_id = s.tracker.boot_id;
                runtime_revision = (observe py d s.tracker).0.revision;
                payload = some d;
              },
            )
              ∷ [])
      × (again.0 ≡ returned false)
      × (again.1.sent ≡ later.1.sent)
unfolding send_if_changed send observe
send_if_changed_retries py d s v new =
    ground (arith, observe-le py d s.tracker, observe_again py d s.tracker)
