-- ===== src/Updater/Types.antt =====
-- The wire structures of pkg/contracts/types_updater_protocol.go and the self-update directive of
-- types_host_policy.go. A named string type is String; its constants have a module each.
use autostream_contracts.Common.{String, Bool, Option, List, ℤ}
use autostream_contracts.Port.Types.{
  Timestamp, SystemUpdatePortReconfiguration, SystemUpdatePortResultV2,
}

pub record UpdaterSoftwareUpdateDesiredOperation : Type 0 where
  pub expected_current_version : String
  pub target_version : String
  pub strategy : String

pub record UpdaterBootstrapDesiredOperation : Type 0 where
  pub expected_state : String
  pub target_version : String

pub record HostSelfUpdateReleaseBinding : Type 0 where
  pub tag : String
  pub commit : String
  pub published_at : Timestamp
  pub manifest_asset_id : ℤ
  pub manifest_asset_name : String
  pub manifest_sha256 : String
  pub manifest_checksum_asset_id : ℤ
  pub manifest_checksum_sha256 : String
  pub archive_asset_id : ℤ
  pub archive_asset_name : String
  pub archive_size : ℤ
  pub archive_sha256 : String
  pub archive_checksum_asset_id : ℤ
  pub archive_checksum_sha256 : String
  pub arch : String
  pub agent_protocol_version : ℤ
  pub executor_protocol_version : ℤ
  pub mutation_protocol_version : ℤ
  pub recovery_protocol_version : ℤ
  pub minimum_panel_version : String

pub record HostAgentSelfUpdateDirective : Type 0 where
  pub generation : String
  pub agent_version : String
  pub executor_version : String
  pub commit : String
  pub artifact_sha256 : String
  pub agent_protocol_version : ℤ
  pub executor_protocol_version : ℤ
  pub mutation_protocol_version : ℤ
  pub recovery_protocol_version : ℤ
  pub release : HostSelfUpdateReleaseBinding
  pub staged_at : Timestamp

pub record UpdaterDesiredOperation : Type 0 where
  pub operation : String
  pub software_update : Option UpdaterSoftwareUpdateDesiredOperation
  pub bootstrap : Option UpdaterBootstrapDesiredOperation
  pub port_reconfigure : Option SystemUpdatePortReconfiguration
  pub host_self_update : Option HostAgentSelfUpdateDirective

pub record UpdaterTargetIdentity : Type 0 where
  pub target_kind : String
  pub service_id : String
  pub service_type : String
  pub deployment_mode : String
  pub expected_config_revision : ℤ
  pub execution_host_id : String

pub record UpdaterCommandIssuer : Type 0 where
  pub service_id : String
  pub service_type : String
  pub authentication : String
  pub permission : String

pub record UpdaterMutationAuthorization : Type 0 where
  pub authorization_id : String
  pub nonce_id : String
  pub job_id : String
  pub updater_id : String
  pub host_id : String
  pub action_type : String
  pub target : UpdaterTargetIdentity
  pub canonical_argument_digest : String
  pub desired_revision : ℤ
  pub fence : ℤ
  pub expires_at : Timestamp
  pub required_capability : String
  pub one_time : Bool

pub record UpdaterCommandEnvelope : Type 0 where
  pub protocol_version : ℤ
  pub command_id : String
  pub issuer : UpdaterCommandIssuer
  pub idempotency_key : String
  pub canonical_payload_digest : String
  pub mutation_authorization : UpdaterMutationAuthorization
  pub desired_operation : UpdaterDesiredOperation
  pub audit_correlation_id : String

pub record UpdaterLeaseEnvelope : Type 0 where
  pub protocol_version : ℤ
  pub lease_id : String
  pub lease_generation : ℤ
  pub lease_expires_at : Timestamp
  pub command : UpdaterCommandEnvelope

pub record UpdaterEvidence : Type 0 where
  pub evidence_code : String
  pub observed_at : Timestamp
  pub observed_revision : ℤ
  pub artifact_digest : String

pub record V2UpdaterSafeError : Type 0 where
  pub code : String
  pub message : String
  pub retryable : Bool
  pub audit_correlation_id : String

pub record UpdaterProgressEnvelope : Type 0 where
  pub protocol_version : ℤ
  pub command_id : String
  pub job_id : String
  pub updater_id : String
  pub host_id : String
  pub lease_id : String
  pub lease_generation : ℤ
  pub sequence : ℤ
  pub phase : String
  pub progress : ℤ
  pub desired_revision : ℤ
  pub fence : ℤ
  pub audit_correlation_id : String
  pub observed_at : Timestamp

pub record UpdaterResultEnvelope : Type 0 where
  pub protocol_version : ℤ
  pub command_id : String
  pub job_id : String
  pub updater_id : String
  pub host_id : String
  pub lease_id : String
  pub lease_generation : ℤ
  pub idempotency_key : String
  pub canonical_payload_digest : String
  pub authorization_id : String
  pub desired_revision : ℤ
  pub applied_revision : ℤ
  pub fence : ℤ
  pub outcome : String
  pub status : String
  pub automatic_resend_allowed : Bool
  pub audit_correlation_id : String
  pub evidence : List UpdaterEvidence
  pub safe_error : Option V2UpdaterSafeError
  pub port_reconfigure : Option SystemUpdatePortResultV2

pub record UpdaterMutationGrantBinding : Type 0 where
  pub lease : UpdaterLeaseEnvelope
  pub operation : String
  pub session_id : String

pub record UpdateAgentMutationGrantIssueResponse : Type 0 where
  pub grant_token : String
  pub expires_at : Timestamp
