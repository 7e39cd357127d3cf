-- ===== src/Port/Wire.antt =====
-- The JSON form of a plan: the `json` tags of the structures in
-- pkg/contracts/system_update_port_v2.go and types_system_updates.go, members in declaration order.
pub mod Read
pub mod Parts
pub mod Plan
use autostream_contracts.Common.{[], ◌∷◌}
use autostream_contracts.Json.{
  Json, number, text, object, members, keep, omit_text, omit_number, omit_nil,
}
use autostream_contracts.Port.Types.{
  SystemUpdatePortDockerSnapshot, SystemUpdatePortSnapshotRef, SystemUpdatePortDockerBaseline,
  SystemUpdateDockerPortReconfiguration, SystemUpdatePortReconfiguration,
}

unfoldable pub docker_snapshot_json : SystemUpdatePortDockerSnapshot → Json
docker_snapshot_json d = object (
    members (
      keep "published_host_ip" (text d.published_host_ip)
      ∷ keep "published_port" (number d.published_port)
      ∷ keep "container_port" (number d.container_port)
      ∷ keep "health_port" (number d.health_port)
      ∷ keep "compose_policy_sha256" (text d.compose_policy_sha256)
      ∷ keep "compose_revision" (number d.compose_revision)
      ∷ keep "version_env_sha256" (text d.version_env_sha256)
      ∷ keep "image_id" (text d.image_id)
      ∷ keep "repository_digest" (text d.repository_digest)
      ∷ []))

unfoldable pub snapshot_ref_json : SystemUpdatePortSnapshotRef → Json
unfolding docker_snapshot_json
snapshot_ref_json ref = object (
    members (
      keep "snapshot_id" (text ref.snapshot_id)
      ∷ keep "snapshot_sha256" (text ref.snapshot_sha256)
      ∷ keep "source_policy_revision" (number ref.source_policy_revision)
      ∷ keep "projection_revision" (number ref.projection_revision)
      ∷ keep "executor_policy_revision" (number ref.executor_policy_revision)
      ∷ keep "executor_policy_sha256" (text ref.executor_policy_sha256)
      ∷ keep "endpoint_revision" (number ref.endpoint_revision)
      ∷ keep "applied_endpoint_revision" (number ref.applied_endpoint_revision)
      ∷ keep "config_revision" (number ref.config_revision)
      ∷ keep "config_sha256" (text ref.config_sha256)
      ∷ keep "advertised_port" (number ref.advertised_port)
      ∷ keep "advertised_endpoint_sha256" (text ref.advertised_endpoint_sha256)
      ∷ keep "local_listen_port" (number ref.local_listen_port)
      ∷ omit_nil "docker" docker_snapshot_json ref.docker
      ∷ []))

unfoldable pub docker_baseline_json : SystemUpdatePortDockerBaseline → Json
docker_baseline_json b = object (
    members (
      keep "expected_container_id" (text b.expected_container_id)
      ∷ keep "expected_image_id" (text b.expected_image_id)
      ∷ keep "expected_repository_digest" (text b.expected_repository_digest)
      ∷ keep "expected_version_env_sha256" (text b.expected_version_env_sha256)
      ∷ keep "approved_compose_config_sha256" (text b.approved_compose_config_sha256)
      ∷ keep "approved_compose_revision" (number b.approved_compose_revision)
      ∷ []))

unfoldable pub legacy_docker_json : SystemUpdateDockerPortReconfiguration → Json
legacy_docker_json d = object (
    members (
      omit_text "published_host_ip" d.published_host_ip
      ∷ omit_number "old_published_port" d.old_published_port
      ∷ omit_number "new_published_port" d.new_published_port
      ∷ omit_number "old_container_port" d.old_container_port
      ∷ omit_number "new_container_port" d.new_container_port
      ∷ omit_number "old_health_port" d.old_health_port
      ∷ omit_number "new_health_port" d.new_health_port
      ∷ omit_text "approved_compose_config_sha256" d.approved_compose_config_sha256
      ∷ omit_number "approved_compose_revision" d.approved_compose_revision
      ∷ omit_text "expected_version_env_sha256" d.expected_version_env_sha256
      ∷ omit_text "expected_container_id" d.expected_container_id
      ∷ omit_text "expected_image_id" d.expected_image_id
      ∷ omit_text "expected_repository_digest" d.expected_repository_digest
      ∷ []))

unfoldable pub plan_json : SystemUpdatePortReconfiguration → Json
unfolding snapshot_ref_json docker_baseline_json legacy_docker_json
plan_json p = object (
    members (
      omit_number "port_contract_version" p.port_contract_version
      ∷ omit_text "mode" p.mode
      ∷ omit_nil "before" snapshot_ref_json p.before
      ∷ omit_nil "target" snapshot_ref_json p.target
      ∷ omit_nil "rollback" snapshot_ref_json p.rollback
      ∷ omit_nil "docker_baseline" docker_baseline_json p.docker_baseline
      ∷ omit_text "network_namespace" p.network_namespace
      ∷ omit_text "protocol" p.protocol
      ∷ omit_number "old_port" p.old_port
      ∷ omit_number "new_port" p.new_port
      ∷ omit_number "expected_endpoint_revision" p.expected_endpoint_revision
      ∷ omit_number "target_endpoint_revision" p.target_endpoint_revision
      ∷ omit_number "expected_config_revision" p.expected_config_revision
      ∷ omit_number "target_config_revision" p.target_config_revision
      ∷ omit_text "expected_config_sha256" p.expected_config_sha256
      ∷ omit_text "target_config_sha256" p.target_config_sha256
      ∷ omit_number "expected_source_policy_revision" p.expected_source_policy_revision
      ∷ omit_number "expected_updater_policy_revision" p.expected_updater_policy_revision
      ∷ omit_number "expected_executor_policy_revision" p.expected_executor_policy_revision
      ∷ omit_text "expected_executor_policy_sha256" p.expected_executor_policy_sha256
      ∷ omit_text "port_plan_sha256" p.port_plan_sha256
      ∷ omit_nil "docker" legacy_docker_json p.docker
      ∷ omit_text "result" p.result
      ∷ []))
