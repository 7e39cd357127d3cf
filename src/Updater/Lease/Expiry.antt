-- ===== src/Updater/Lease/Expiry.antt =====
-- Expiries are nested: a grant ends within its lease, a lease within its authorization.
use autostream_contracts.Common.{◌≡◌, ◌≤ℤ◌, ◌<ℤ◌, ◌≤◌, pass, tests, succeeds-pass}
use autostream_contracts.Text.{byte_length}
use autostream_contracts.Port.Types.{Timestamp}
use autostream_contracts.Updater.Types.{UpdaterLeaseEnvelope, UpdateAgentMutationGrantIssueResponse}
use autostream_contracts.Updater.Platform.{Platform}
use autostream_contracts.Updater.Command.{validate_command}
use autostream_contracts.Updater.Lease.{
  validate_lease_static, validate_lease, valid_grant_issue_response,
  validate_grant_issue_response_for_lease,
}

-- What the static test of a lease finds.
pub validate_lease_static-facts :
    (platform : Platform) (lease : UpdaterLeaseEnvelope)
    → validate_lease_static platform lease ≡ pass
    → (validate_command platform lease.command ≡ pass)
      × (lease.lease_expires_at ≤ℤ lease.command.mutation_authorization.expires_at)
unfolding validate_lease_static
validate_lease_static-facts platform lease h = grind (tests, succeeds-pass)

-- A lease that is valid now ends later, and not after the authorization of its command.
pub validate_lease-nested :
    (platform : Platform) (now : Timestamp) (lease : UpdaterLeaseEnvelope)
    → validate_lease platform now lease ≡ pass
    → (validate_lease_static platform lease ≡ pass) × (now <ℤ lease.lease_expires_at)
unfolding validate_lease
validate_lease-nested platform now lease h = grind (tests, succeeds-pass)

grant_facts :
    (platform : Platform) (now : Timestamp) (lease : UpdaterLeaseEnvelope)
    (response : UpdateAgentMutationGrantIssueResponse)
    → validate_grant_issue_response_for_lease platform now lease response ≡ pass
    → (validate_lease platform now lease ≡ pass)
      × (now <ℤ response.expires_at)
      × (response.expires_at ≤ℤ lease.lease_expires_at)
      × (32 ≤ byte_length response.grant_token)
      × (byte_length response.grant_token ≤ 256)
unfolding validate_grant_issue_response_for_lease valid_grant_issue_response
grant_facts platform now lease response h = grind (tests, succeeds-pass)

-- A grant that is valid for a lease ends after now, and neither after the lease nor after the
-- authorization of the lease's command, which is accepted; its token has 32 to 256 bytes.
pub validate_grant_issue_response_for_lease-nested :
    (platform : Platform) (now : Timestamp) (lease : UpdaterLeaseEnvelope)
    (response : UpdateAgentMutationGrantIssueResponse)
    → validate_grant_issue_response_for_lease platform now lease response ≡ pass
    → (validate_command platform lease.command ≡ pass)
      × (now <ℤ response.expires_at)
      × (response.expires_at ≤ℤ lease.lease_expires_at)
      × (lease.lease_expires_at ≤ℤ lease.command.mutation_authorization.expires_at)
      × (32 ≤ byte_length response.grant_token)
      × (byte_length response.grant_token ≤ 256)
validate_grant_issue_response_for_lease-nested platform now lease response h =
    let (lease_valid, after, within_lease, low, high) = grant_facts platform now lease response h in
    let (static, later) = validate_lease-nested platform now lease lease_valid in
    let (accepted, within) = validate_lease_static-facts platform lease static in
    (accepted, after, within_lease, within, low, high)
