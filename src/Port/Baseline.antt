-- ===== src/Port/Baseline.antt =====
-- `ValidateUpdaterPortPolicyBaseline` of pkg/contracts/system_update_port_v2.go.
pub mod Services
use autostream_contracts.Common.{
  ℕ, String, Bool, true, not, ◌&&◌, ◌||◌, Option, none, some, List, [], ℤ, pos, leb, length, ◌==◌,
  ℕ_eq, ℤ_eq, String_eq, Bool_eq, is_nil, loop_distinct, Check, require, ◌>>◌,
  system_update_port_contract,
}
use autostream_contracts.Text.{
  valid_updater_identifier, matches_digest, matches_raw_sha256, valid_baseline_version,
}
use autostream_contracts.Port.Types.{Timestamp, SystemUpdatePortDockerSnapshot}
use autostream_contracts.Port.Deployment
use autostream_contracts.Port.Snapshot.{
  valid_revision, valid_port, valid_docker_snapshot, valid_application_service_type,
  valid_deployment_mode, docker_valid,
}

pub record UpdaterPortDockerRootBaseline : Type 0 where
  pub compose_config_sha256 : String
  pub current_version : String

pub record UpdaterPortPolicyBaselineTarget : Type 0 where
  pub service_id : String
  pub service_type : String
  pub deployment_mode : String
  pub endpoint_revision : ℤ
  pub config_revision : ℤ
  pub config_sha256 : String
  pub local_listen_port : ℤ
  pub docker : Option SystemUpdatePortDockerSnapshot
  pub docker_root : Option UpdaterPortDockerRootBaseline

pub record UpdaterPortPolicyBaseline : Type 0 where
  pub port_contract_version : ℤ
  pub policy_transition_version : ℤ
  pub agent_uid : ℕ
  pub agent_gid : ℕ
  pub source_policy_revision : ℤ
  pub projection_revision : ℤ
  pub executor_policy_revision : ℤ
  pub executor_policy_sha256 : String
  pub targets : List UpdaterPortPolicyBaselineTarget
  pub observed_at : Timestamp

-- The first test.
unfoldable pub baseline_fields : UpdaterPortPolicyBaseline → Bool
baseline_fields baseline =
    baseline.port_contract_version == pos 2
    && baseline.policy_transition_version == pos 1
    && not (baseline.agent_uid == 0)
    && not (baseline.agent_gid == 0)
    && valid_revision baseline.source_policy_revision
    && valid_revision baseline.projection_revision
    && valid_revision baseline.executor_policy_revision
    && matches_digest baseline.executor_policy_sha256
    && not (baseline.observed_at == pos 0)
    && leb 1 (length baseline.targets)
    && leb (length baseline.targets) 1024

abbrev docker_root_valid : Option UpdaterPortDockerRootBaseline → Bool
docker_root_valid none = true
docker_root_valid (some root) =
    matches_raw_sha256 root.compose_config_sha256
    && (root.current_version == "" || valid_baseline_version root.current_version)

-- The loop's test, less the one of the services that were seen.
unfoldable pub baseline_target : UpdaterPortPolicyBaselineTarget → Bool
baseline_target target =
    valid_updater_identifier target.service_id
    && valid_application_service_type target.service_type
    && valid_deployment_mode target.deployment_mode
    && valid_revision target.endpoint_revision
    && valid_revision target.config_revision
    && matches_digest target.config_sha256
    && valid_port target.local_listen_port (pos 1024)
    && (target.deployment_mode == Deployment.docker) == not (is_nil target.docker)
    && (target.deployment_mode == Deployment.docker) == not (is_nil target.docker_root)
    && docker_root_valid target.docker_root
    && docker_valid target.docker target.local_listen_port

abbrev pub baseline_service : UpdaterPortPolicyBaselineTarget → String
baseline_service target = target.service_id

-- `ValidateUpdaterPortPolicyBaseline`
unfoldable pub validate_baseline : UpdaterPortPolicyBaseline → Check
validate_baseline baseline = do
  require (baseline_fields baseline) system_update_port_contract
  require (loop_distinct baseline_service baseline_target [] baseline.targets)
      system_update_port_contract
