-- ===== src/Updater/Lease.antt =====
-- The lease, progress and grant validators of pkg/contracts/updater_runtime_validation.go.
pub mod Expiry
pub mod Operations
use autostream_contracts.Common.{
  String, Bool, not, ◌&&◌, ◌||◌, pos, leb_ℤ, ltb_ℤ, leb, ◌==◌, ℤ_eq, String_eq, Check, require,
  or_fail, succeeds, ◌>>◌, updater_lease_invalid, updater_progress_invalid,
  updater_mutation_grant_invalid, updater_mutation_grant_response_invalid,
}
use autostream_contracts.Text.{
  valid_updater_identifier, matches_nonce, byte_length, all_characters, is_printable,
}
use autostream_contracts.Port.Types.{Timestamp}
use autostream_contracts.Updater.Types.{
  UpdaterLeaseEnvelope, UpdaterProgressEnvelope, UpdaterMutationGrantBinding,
  UpdateAgentMutationGrantIssueResponse,
}
use autostream_contracts.Updater.Platform.{Platform}
use autostream_contracts.Updater.Target.{valid_mutation_for_desired}
use autostream_contracts.Updater.Command.{validate_command}

-- `validUpdaterProgressPhase`
unfoldable pub valid_progress_phase : String → Bool
valid_progress_phase phase =
    phase == "accepted"
    || phase == "journaled"
    || phase == "preparing"
    || phase == "executing"
    || phase == "verifying"
    || phase == "rolling_back"
    || phase == "reconciling"

-- What `ValidateUpdaterProgress` asks of the progress of a lease.
unfoldable pub progress_matches : UpdaterLeaseEnvelope → UpdaterProgressEnvelope → Bool
progress_matches lease progress =
    let authorization = lease.command.mutation_authorization in
    progress.protocol_version == pos 2
    && progress.command_id == lease.command.command_id
    && progress.job_id == authorization.job_id
    && progress.updater_id == authorization.updater_id
    && progress.host_id == authorization.host_id
    && progress.lease_id == lease.lease_id
    && progress.lease_generation == lease.lease_generation
    && progress.desired_revision == authorization.desired_revision
    && progress.fence == authorization.fence
    && progress.audit_correlation_id == lease.command.audit_correlation_id
    && leb_ℤ (pos 0) progress.sequence
    && leb_ℤ (pos 0) progress.progress
    && leb_ℤ progress.progress (pos 100)
    && valid_progress_phase progress.phase
    && not (progress.observed_at == pos 0)
    && leb_ℤ progress.observed_at lease.lease_expires_at

-- `validUpdaterMutationGrantIssueResponse`
unfoldable pub valid_grant_issue_response : Timestamp → UpdateAgentMutationGrantIssueResponse → Bool
valid_grant_issue_response now response =
    not (now == pos 0)
    && ltb_ℤ now response.expires_at
    && leb 32 (byte_length response.grant_token)
    && leb (byte_length response.grant_token) 256
    && all_characters is_printable response.grant_token

-- Go's `a.After(b)` is `ltb_ℤ b a`, and its negation `leb_ℤ a b`.
module _ (platform : Platform) where
  -- `validateUpdaterLeaseStatic`
  unfoldable pub validate_lease_static : UpdaterLeaseEnvelope → Check
  validate_lease_static lease =
      require
        (lease.protocol_version == pos 2
          && valid_updater_identifier lease.lease_id
          && leb_ℤ (pos 1) lease.lease_generation
          && not (lease.lease_expires_at == pos 0)
          && succeeds (validate_command platform lease.command)
          && leb_ℤ lease.lease_expires_at lease.command.mutation_authorization.expires_at)
        updater_lease_invalid

  -- `ValidateUpdaterLease`
  unfoldable pub validate_lease : Timestamp → UpdaterLeaseEnvelope → Check
  validate_lease now lease =
      require
        (succeeds (validate_lease_static lease)
          && not (now == pos 0)
          && ltb_ℤ now lease.lease_expires_at)
        updater_lease_invalid

  -- `ValidateUpdaterProgress`
  unfoldable pub validate_progress : UpdaterLeaseEnvelope → UpdaterProgressEnvelope → Check
  validate_progress lease progress = do
    or_fail (validate_lease_static lease) updater_progress_invalid
    require (progress_matches lease progress) updater_progress_invalid

  -- `ValidateUpdaterMutationGrantBinding`
  unfoldable pub validate_grant_binding : Timestamp → UpdaterMutationGrantBinding → Check
  validate_grant_binding now binding =
      require
        (succeeds (validate_lease now binding.lease)
          && matches_nonce binding.session_id
          && valid_mutation_for_desired binding.operation
              binding.lease.command.desired_operation.operation)
        updater_mutation_grant_invalid

  -- `ValidateUpdaterMutationGrantIssueResponseForLease`
  unfoldable pub validate_grant_issue_response_for_lease :
      Timestamp → UpdaterLeaseEnvelope → UpdateAgentMutationGrantIssueResponse → Check
  validate_grant_issue_response_for_lease now lease response =
      require
        (succeeds (validate_lease now lease)
          && valid_grant_issue_response now response
          && leb_ℤ response.expires_at lease.lease_expires_at
          && leb_ℤ response.expires_at lease.command.mutation_authorization.expires_at)
        updater_mutation_grant_response_invalid
