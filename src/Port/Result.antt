-- ===== src/Port/Result.antt =====
-- `ValidateSystemUpdatePortResult` and what it uses, of pkg/contracts/system_update_port_v2.go.
pub mod Kinds
pub mod Revisions
use autostream_contracts.Common.{
  String, Bool, true, false, not, ◌&&◌, ◌||◌, Option, none, some, ℤ, pos, ◌==◌, ℤ_eq, String_eq,
  is_nil, if◌then◌else◌, Check, pass, err, require, or_fail, ◌>>◌, system_update_port_contract,
}
use autostream_contracts.Text.{valid_container_id}
use autostream_contracts.Text.Digest.{Sha256}
use autostream_contracts.Port.Types.{
  SystemUpdatePortObservation, SystemUpdatePortRuntimeInstance, SystemUpdatePortResultV2,
  SystemUpdatePortDockerSnapshot, SystemUpdatePortDockerBaseline, SystemUpdatePortSnapshotRef,
  SystemUpdatePortReconfiguration,
}
use autostream_contracts.Port.Outcome
use autostream_contracts.Port.Plan.{plan_is_no_op, validate_plan}

-- `systemUpdatePortObservationVerified`
unfoldable pub observation_verified : SystemUpdatePortObservation → Bool
observation_verified o =
    o.policy_disk_verified && o.policy_memory_verified && o.agent_projection_verified
    && o.listener_verified

-- `IsAcceptedSystemUpdatePortResult`
unfoldable pub is_accepted_result : SystemUpdatePortResultV2 → Bool
is_accepted_result x =
    x.result == Outcome.applied || x.result == Outcome.unchanged || x.result == Outcome.rolled_back

-- A failed recovery names no snapshot, and no runtime.
unfoldable pub rollback_failed_result :
    SystemUpdatePortReconfiguration → SystemUpdatePortResultV2 → Bool
rollback_failed_result plan x =
    x.observed_snapshot_id == ""
    && x.observed_snapshot_sha256 == ""
    && x.observed_config_revision == pos 0
    && x.observed_config_sha256 == ""
    && x.observed_executor_policy_revision == pos 0
    && x.observed_executor_policy_sha256 == ""
    && is_nil x.runtime_instance
    && not (plan_is_no_op plan)
    && not (observation_verified x.observation)

-- The switch: the state that an accepted result must have observed; `none` where it returns its
-- error. (The references of a valid plan are not nil.)
unfoldable pub expected_state :
    SystemUpdatePortReconfiguration → String → Option SystemUpdatePortSnapshotRef
expected_state plan result =
    if result == Outcome.applied
    then (if plan_is_no_op plan then none else plan.target)
    else if result == Outcome.unchanged
    then (if plan_is_no_op plan then plan.before else none)
    else if result == Outcome.rolled_back
    then (if plan_is_no_op plan then none else plan.rollback)
    else none

-- The observed fields are those of the state.
unfoldable pub observes : SystemUpdatePortSnapshotRef → SystemUpdatePortResultV2 → Bool
observes state x =
    observation_verified x.observation
    && x.observed_snapshot_id == state.snapshot_id
    && x.observed_snapshot_sha256 == state.snapshot_sha256
    && x.observed_config_revision == state.config_revision
    && x.observed_config_sha256 == state.config_sha256
    && x.observed_executor_policy_revision == state.executor_policy_revision
    && x.observed_executor_policy_sha256 == state.executor_policy_sha256

abbrev same_container :
    Option SystemUpdatePortDockerBaseline → SystemUpdatePortRuntimeInstance → Bool
same_container none i = false
same_container (some baseline) i = i.container_id == baseline.expected_container_id

-- The runtime instance, for the Docker part of the state.
abbrev pub runtime_matches :
    String
    → Option SystemUpdatePortDockerBaseline
    → Option SystemUpdatePortDockerSnapshot
    → Option SystemUpdatePortRuntimeInstance
    → Bool
runtime_matches result baseline none none = true
runtime_matches result baseline none (some i) = false
runtime_matches result baseline (some d) none = false
runtime_matches result baseline (some d) (some i) =
    valid_container_id i.container_id
    && i.image_id == d.image_id
    && i.repository_digest == d.repository_digest
    && not (result == Outcome.unchanged && not (same_container baseline i))

unfoldable pub accepted_result :
    SystemUpdatePortReconfiguration → SystemUpdatePortResultV2 → SystemUpdatePortSnapshotRef → Bool
accepted_result plan x state =
    observes state x
    && runtime_matches x.result plan.docker_baseline state.docker x.runtime_instance

abbrev pub observed_matches :
    SystemUpdatePortReconfiguration
    → SystemUpdatePortResultV2
    → Option SystemUpdatePortSnapshotRef
    → Bool
observed_matches plan x none = false
observed_matches plan x (some state) = accepted_result plan x state

module _ (sha : Sha256) where
  -- `ValidateSystemUpdatePortResult`
  unfoldable pub validate_result :
      SystemUpdatePortReconfiguration → SystemUpdatePortResultV2 → Check
  validate_result plan x = do
    or_fail (validate_plan sha plan) system_update_port_contract
    require (not (x.observation.observed_at == pos 0)) system_update_port_contract
    require
        (if x.result == Outcome.rollback_failed
          then rollback_failed_result plan x
          else observed_matches plan x (expected_state plan x.result))
        system_update_port_contract
