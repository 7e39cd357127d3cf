-- ===== src/Updater/Samples.antt =====
-- Test data: a command that changes a port from 8080 to 9090, its lease and what follows.
use autostream_contracts.Common.{String, true, false, none, some, [], ◌∷◌, pos}
use autostream_contracts.Port.Samples.{zero_sha, local_plan, applied_result}
use autostream_contracts.Port.ServiceType
use autostream_contracts.Port.Deployment
use autostream_contracts.Updater.Types.{
  UpdaterTargetIdentity, UpdaterMutationAuthorization, UpdaterCommandEnvelope, UpdaterLeaseEnvelope,
  UpdaterEvidence, UpdaterResultEnvelope, UpdaterMutationGrantBinding,
  UpdateAgentMutationGrantIssueResponse, V2UpdaterSafeError,
}
use autostream_contracts.Updater.Platform.{Platform}
use autostream_contracts.Updater.Capability
use autostream_contracts.Updater.Desired
use autostream_contracts.Updater.Mutation
use autostream_contracts.Updater.TargetKind
use autostream_contracts.Updater.Outcome
use autostream_contracts.Updater.Status

-- A schema that accepts every document.
abbrev pub platform : Platform
platform = record {
  sha = zero_sha;
  desired_schema = some (λ document. true);
  marshal_time = λ time. some "2026-01-01T00:00:00Z";
}

abbrev pub zero_digest : String
zero_digest = "sha256:0000000000000000000000000000000000000000000000000000000000000000"

abbrev pub worker_target : UpdaterTargetIdentity
worker_target = record {
  target_kind = TargetKind.application;
  service_id = "worker-1";
  service_type = ServiceType.worker;
  deployment_mode = Deployment.systemd;
  expected_config_revision = pos 7;
  execution_host_id = "";
}

abbrev pub authorization : UpdaterMutationAuthorization
authorization = record {
  authorization_id = "auth-1";
  nonce_id = "nonce-0123456789abc";
  job_id = "job-1";
  updater_id = "updater-1";
  host_id = "host-1";
  action_type = Capability.port;
  target = worker_target;
  canonical_argument_digest = zero_digest;
  desired_revision = pos 8;
  fence = pos 3;
  expires_at = pos 2000;
  required_capability = Capability.port;
  one_time = true;
}

abbrev pub port_command : UpdaterCommandEnvelope
port_command = record {
  protocol_version = pos 2;
  command_id = "command-1";
  issuer = record {
    service_id = "panel-1";
    service_type = "control_panel";
    authentication = "assignment_bound_rotating_service_identity";
    permission = "updates.authorize";
  };
  idempotency_key = "key-1";
  canonical_payload_digest = zero_digest;
  mutation_authorization = authorization;
  desired_operation = record {
    operation = Desired.port_reconfigure;
    software_update = none;
    bootstrap = none;
    port_reconfigure = some local_plan;
    host_self_update = none;
  };
  audit_correlation_id = "audit-1";
}

abbrev pub port_lease : UpdaterLeaseEnvelope
port_lease = record {
  protocol_version = pos 2;
  lease_id = "lease-1";
  lease_generation = pos 1;
  lease_expires_at = pos 1500;
  command = port_command;
}

abbrev pub probe : UpdaterEvidence
probe = record {
  evidence_code = "application_probe_verified";
  observed_at = pos 1100;
  observed_revision = pos 8;
  artifact_digest = "";
}

abbrev pub applied_port_result : UpdaterResultEnvelope
applied_port_result = record {
  protocol_version = pos 2;
  command_id = "command-1";
  job_id = "job-1";
  updater_id = "updater-1";
  host_id = "host-1";
  lease_id = "lease-1";
  lease_generation = pos 1;
  idempotency_key = "key-1";
  canonical_payload_digest = zero_digest;
  authorization_id = "auth-1";
  desired_revision = pos 8;
  applied_revision = pos 8;
  fence = pos 3;
  outcome = Outcome.succeeded;
  status = Status.succeeded;
  automatic_resend_allowed = false;
  audit_correlation_id = "audit-1";
  evidence = probe ∷ [];
  safe_error = none;
  port_reconfigure = some applied_result;
}

abbrev pub execution_error : V2UpdaterSafeError
execution_error = record {
  code = "execution_failed";
  message = "updater execution failed";
  retryable = true;
  audit_correlation_id = "audit-1";
}

abbrev pub failed_port_result : UpdaterResultEnvelope
failed_port_result = record applied_port_result {
  applied_revision = pos 0;
  outcome = Outcome.failed;
  status = Status.failed;
  safe_error = some execution_error;
  port_reconfigure = none;
}

abbrev pub grant_binding : UpdaterMutationGrantBinding
grant_binding = record {
  lease = port_lease;
  operation = Mutation.port_reconfigure;
  session_id = "session-01234567";
}

abbrev pub grant_response : UpdateAgentMutationGrantIssueResponse
grant_response = record { grant_token = "0123456789abcdef0123456789abcdef"; expires_at = pos 1200 }
