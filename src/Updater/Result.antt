-- ===== src/Updater/Result.antt =====
-- `ValidateUpdaterResult` of pkg/contracts/updater_runtime_validation.go and
-- `validateUpdaterPortResultBinding` of system_update_port_validation.go.
pub mod Ending
pub mod Intent
pub mod Applied
use autostream_contracts.Common.{
  Bool, false, not, ◌&&◌, ◌||◌, Option, none, some, ℤ, pos, leb_ℤ, leb, length, ◌==◌, ℤ_eq,
  String_eq, is_nil, if◌then◌else◌, Check, require, or_fail, succeeds, ◌>>◌, updater_result_invalid,
}
use autostream_contracts.Text.Digest.{Sha256}
use autostream_contracts.Port.Types.{
  SystemUpdatePortReconfiguration, SystemUpdatePortSnapshotRef, SystemUpdatePortResultV2,
}
use autostream_contracts.Port.Outcome as PortOutcome
use autostream_contracts.Port.Result.{validate_result}
use autostream_contracts.Updater.Types.{
  UpdaterLeaseEnvelope, UpdaterResultEnvelope, V2UpdaterSafeError,
}
use autostream_contracts.Updater.Platform.{Platform}
use autostream_contracts.Updater.Desired
use autostream_contracts.Updater.Outcome
use autostream_contracts.Updater.Status
use autostream_contracts.Updater.TargetKind
use autostream_contracts.Updater.Lease.{validate_lease_static}
use autostream_contracts.Updater.Evidence.{
  valid_evidence, has_evidence, has_evidence_at_revision, valid_safe_error,
}

-- The plan of a lease's command, where it is a port change by version 2.
abbrev pub version_two :
    Option SystemUpdatePortReconfiguration → Option SystemUpdatePortReconfiguration
version_two none = none
version_two (some plan) = if plan.port_contract_version == pos 2 then some plan else none

abbrev pub port_plan : UpdaterLeaseEnvelope → Option SystemUpdatePortReconfiguration
port_plan lease =
    if lease.command.desired_operation.operation == Desired.port_reconfigure
    then version_two lease.command.desired_operation.port_reconfigure
    else none

-- `plan.Rollback.ConfigRevision`; the plan of a valid result has R.
abbrev pub is_rollback_revision : Option SystemUpdatePortSnapshotRef → ℤ → Bool
is_rollback_revision none revision = false
is_rollback_revision (some r) revision = revision == r.config_revision

-- The switch on the port result.
unfoldable pub port_outcome_matches :
    SystemUpdatePortReconfiguration → SystemUpdatePortResultV2 → UpdaterResultEnvelope → Bool
port_outcome_matches plan port result =
    if port.result == PortOutcome.applied || port.result == PortOutcome.unchanged
    then result.outcome == Outcome.succeeded
      && result.status == Status.succeeded
      && result.applied_revision == port.observed_config_revision
    else if port.result == PortOutcome.rolled_back
    then result.outcome == Outcome.rolled_back
      && result.status == Status.rolled_back
      && is_rollback_revision plan.rollback result.applied_revision
      && has_evidence_at_revision result.evidence "rollback_verified" result.applied_revision
      && has_evidence_at_revision result.evidence "application_probe_verified"
          result.applied_revision
    else if port.result == PortOutcome.rollback_failed
    then result.outcome == Outcome.failed
      && result.status == Status.failed
      && result.applied_revision == pos 0
    else false

module _ (sha : Sha256) where
  abbrev pub port_result_matches :
      UpdaterLeaseEnvelope
      → UpdaterResultEnvelope
      → Option SystemUpdatePortReconfiguration
      → Option SystemUpdatePortResultV2
      → Bool
  port_result_matches lease result none port = is_nil port
  port_result_matches lease result (some plan) none =
      result.applied_revision == pos 0
      && (result.outcome == Outcome.failed
          || result.outcome == Outcome.ambiguous
          || result.status == Status.canceled)
  port_result_matches lease result (some plan) (some port) =
      succeeds (validate_result sha plan port)
      && leb_ℤ port.observation.observed_at lease.lease_expires_at
      && port_outcome_matches plan port result

  -- `validateUpdaterPortResultBinding`
  unfoldable pub validate_port_result_binding : UpdaterLeaseEnvelope → UpdaterResultEnvelope → Bool
  validate_port_result_binding lease result =
      port_result_matches lease result (port_plan lease) result.port_reconfigure

-- The first test of `ValidateUpdaterResult`, less the lease's.
unfoldable pub result_matches : UpdaterLeaseEnvelope → UpdaterResultEnvelope → Bool
result_matches lease result =
    let authorization = lease.command.mutation_authorization in
    result.protocol_version == pos 2
    && result.command_id == lease.command.command_id
    && result.job_id == authorization.job_id
    && result.updater_id == authorization.updater_id
    && result.host_id == authorization.host_id
    && result.lease_id == lease.lease_id
    && result.lease_generation == lease.lease_generation
    && result.idempotency_key == lease.command.idempotency_key
    && result.canonical_payload_digest == lease.command.canonical_payload_digest
    && result.authorization_id == authorization.authorization_id
    && result.desired_revision == authorization.desired_revision
    && result.fence == authorization.fence
    && result.audit_correlation_id == lease.command.audit_correlation_id
    && not result.automatic_resend_allowed
    && leb 1 (length result.evidence)
    && leb (length result.evidence) 32
    && valid_evidence result.evidence lease
    && (is_nil result.safe_error || valid_safe_error result.safe_error result.audit_correlation_id)

abbrev is_ambiguous : Option V2UpdaterSafeError → Bool
is_ambiguous none = false
is_ambiguous (some error) = error.code == "outcome_ambiguous"

abbrev pub plan_version_two : Option SystemUpdatePortReconfiguration → Bool
plan_version_two none = false
plan_version_two (some plan) = plan.port_contract_version == pos 2

-- The case of `succeeded`.
unfoldable pub succeeded_outcome : UpdaterLeaseEnvelope → UpdaterResultEnvelope → Bool
succeeded_outcome lease result =
    result.status == Status.succeeded
    && is_nil result.safe_error
    && result.applied_revision == result.desired_revision
    && (not (lease.command.mutation_authorization.target.target_kind == TargetKind.application)
        || has_evidence_at_revision result.evidence "application_probe_verified"
            result.applied_revision)
    && (not (lease.command.desired_operation.operation == Desired.host_self_update)
        || has_evidence_at_revision result.evidence "host_runtime_verified" result.applied_revision)

-- The switch on the outcome.
unfoldable pub outcome_matches : UpdaterLeaseEnvelope → UpdaterResultEnvelope → Bool
outcome_matches lease result =
    if result.outcome == Outcome.succeeded
    then succeeded_outcome lease result
    else if result.outcome == Outcome.rolled_back
    then result.status == Status.rolled_back && has_evidence result.evidence "rollback_verified"
    else if result.outcome == Outcome.failed
    then result.status == Status.failed
      && valid_safe_error result.safe_error result.audit_correlation_id
    else if result.outcome == Outcome.ambiguous
    then result.status == Status.reconciling
      && valid_safe_error result.safe_error result.audit_correlation_id
      && is_ambiguous result.safe_error
      && has_evidence result.evidence "outcome_ambiguous"
    else if result.outcome == Outcome.canceled
    then plan_version_two lease.command.desired_operation.port_reconfigure
      && result.status == Status.canceled
      && is_nil result.port_reconfigure
      && result.applied_revision == pos 0
    else false

module _ (platform : Platform) where
  -- `ValidateUpdaterResult`
  unfoldable pub validate_updater_result : UpdaterLeaseEnvelope → UpdaterResultEnvelope → Check
  validate_updater_result lease result = do
    or_fail (validate_lease_static platform lease) updater_result_invalid
    require (result_matches lease result) updater_result_invalid
    require (validate_port_result_binding platform.sha lease result) updater_result_invalid
    require (outcome_matches lease result) updater_result_invalid
