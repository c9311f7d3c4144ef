-- ===== src/Config/Prepare.antt =====
-- agent/services/agent_commands.py: `launch_instance_command` up to the start of the game server.
use pitlane_agent.Common.{String, Option, none, some, Bool, true, false, ◌&&◌, not, if◌then◌else◌}
use pitlane_agent.Common.Json.{Value, Fields, null, object, get}
use pitlane_agent.Config.Policy.{normalize_runtime_policy}
use pitlane_agent.Config.Bundle.{Validation, accepted, type_error, validate_runtime_bundle}
use pitlane_agent.Config.Files.{Files, launch_file, save_once, is_saved, save_current_config}
use pitlane_agent.Config.Finalize.{
  Local, Instance, Finalized, final, out_of_sync, refused, finalize_launch_config,
}

-- The configuration, the policy and the hash of the bundle; or the answer to the hub.
pub data Prepared : Type 0 where
  prepared : Fields → Bool → Option String → Prepared
  bundle_invalid ports_out_of_sync failed : Prepared

-- A bundle is validated where the message has one or announces the hash of one.
pub data Checked : Type 0 where
  passed : Option String → Checked
  rejected raised : Checked

abbrev pub is_null : Value → Bool
is_null null = true
is_null _ = false

abbrev pub checked : Validation → Checked
checked (accepted hash) = passed (some hash)
checked type_error = raised
checked _ = rejected

unfoldable pub check_bundle : Local → Fields → Fields → Checked
unfolding validate_runtime_bundle get
check_bundle l body config =
    if is_null (get body "runtime_bundle") && is_null (get body "runtime_bundle_hash")
    then passed none
    else checked (
        validate_runtime_bundle l.hashing (get body "runtime_bundle")
          (get body "runtime_bundle_hash") (object config))

-- The history is written before the current configuration; `encodes` is whether `encode_payload` returns.
unfoldable pub save_configs :
    (Fields → Bool)
    → Local
    → Instance
    → Value
    → Fields
    → Bool
    → Option String
    → Files
    → Files × Prepared
unfolding launch_file save_once save_current_config
save_configs encodes l i launch_id config policy hash f =
    let h = save_once l.writes (launch_file l.naming launch_id i.id) (object config) f.history in
    let g = record f { history = h.0 } in
    let c = save_current_config l.writes_current l.naming i.id (object config) g in
    if not (is_saved h.1)
    then (g, failed)
    else if not c.1
    then (g, failed)
    else (c.0, if encodes config then prepared config policy hash else failed)

abbrev pub after_finalize :
    (Fields → Bool)
    → Local
    → Instance
    → Value
    → Bool
    → Option String
    → Files × Finalized
    → Files × Prepared
after_finalize encodes l i launch_id policy hash (f, final config) =
    save_configs encodes l i launch_id config policy hash f
after_finalize encodes l i launch_id policy hash (f, out_of_sync) = (f, ports_out_of_sync)
after_finalize encodes l i launch_id policy hash (f, refused) = (f, failed)

-- The first `try` of `launch_instance_command`, for a body whose `runtime_config` is an object.
unfoldable pub prepare_launch :
    (Fields → Bool) → Local → Instance → Fields → Fields → Files → Files × Prepared
unfolding normalize_runtime_policy check_bundle finalize_launch_config save_configs get
prepare_launch encodes l i body config f =
    elim (normalize_runtime_policy (get body "runtime_policy")) [
      | none ↦ (f, failed)
      | some policy ↦ elim (check_bundle l body config) [
        | rejected ↦ (f, bundle_invalid)
        | raised ↦ (f, failed)
        | passed hash ↦
            after_finalize encodes l i (get body "launch_id") policy hash
              (finalize_launch_config l i config f)
      ]
    ]
