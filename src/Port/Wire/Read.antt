-- ===== src/Port/Wire/Read.antt =====
-- A reader of the JSON form of a plan, which fills in what `omitempty` left out.
use autostream_contracts.Json.{Members, member?}
use autostream_contracts.Json.Rows.{text_of, number_of, nil_of}
use autostream_contracts.Port.Types.{
  SystemUpdatePortDockerSnapshot, SystemUpdatePortSnapshotRef, SystemUpdatePortDockerBaseline,
  SystemUpdateDockerPortReconfiguration, SystemUpdatePortReconfiguration,
}

abbrev pub read_docker_snapshot : Members → SystemUpdatePortDockerSnapshot
read_docker_snapshot ms = record {
  published_host_ip = text_of (member? "published_host_ip" ms);
  published_port = number_of (member? "published_port" ms);
  container_port = number_of (member? "container_port" ms);
  health_port = number_of (member? "health_port" ms);
  compose_policy_sha256 = text_of (member? "compose_policy_sha256" ms);
  compose_revision = number_of (member? "compose_revision" ms);
  version_env_sha256 = text_of (member? "version_env_sha256" ms);
  image_id = text_of (member? "image_id" ms);
  repository_digest = text_of (member? "repository_digest" ms);
}

abbrev pub read_snapshot_ref : Members → SystemUpdatePortSnapshotRef
read_snapshot_ref ms = record {
  snapshot_id = text_of (member? "snapshot_id" ms);
  snapshot_sha256 = text_of (member? "snapshot_sha256" ms);
  source_policy_revision = number_of (member? "source_policy_revision" ms);
  projection_revision = number_of (member? "projection_revision" ms);
  executor_policy_revision = number_of (member? "executor_policy_revision" ms);
  executor_policy_sha256 = text_of (member? "executor_policy_sha256" ms);
  endpoint_revision = number_of (member? "endpoint_revision" ms);
  applied_endpoint_revision = number_of (member? "applied_endpoint_revision" ms);
  config_revision = number_of (member? "config_revision" ms);
  config_sha256 = text_of (member? "config_sha256" ms);
  advertised_port = number_of (member? "advertised_port" ms);
  advertised_endpoint_sha256 = text_of (member? "advertised_endpoint_sha256" ms);
  local_listen_port = number_of (member? "local_listen_port" ms);
  docker = nil_of read_docker_snapshot (member? "docker" ms);
}

abbrev pub read_docker_baseline : Members → SystemUpdatePortDockerBaseline
read_docker_baseline ms = record {
  expected_container_id = text_of (member? "expected_container_id" ms);
  expected_image_id = text_of (member? "expected_image_id" ms);
  expected_repository_digest = text_of (member? "expected_repository_digest" ms);
  expected_version_env_sha256 = text_of (member? "expected_version_env_sha256" ms);
  approved_compose_config_sha256 = text_of (member? "approved_compose_config_sha256" ms);
  approved_compose_revision = number_of (member? "approved_compose_revision" ms);
}

abbrev pub read_legacy_docker : Members → SystemUpdateDockerPortReconfiguration
read_legacy_docker ms = record {
  published_host_ip = text_of (member? "published_host_ip" ms);
  old_published_port = number_of (member? "old_published_port" ms);
  new_published_port = number_of (member? "new_published_port" ms);
  old_container_port = number_of (member? "old_container_port" ms);
  new_container_port = number_of (member? "new_container_port" ms);
  old_health_port = number_of (member? "old_health_port" ms);
  new_health_port = number_of (member? "new_health_port" ms);
  approved_compose_config_sha256 = text_of (member? "approved_compose_config_sha256" ms);
  approved_compose_revision = number_of (member? "approved_compose_revision" ms);
  expected_version_env_sha256 = text_of (member? "expected_version_env_sha256" ms);
  expected_container_id = text_of (member? "expected_container_id" ms);
  expected_image_id = text_of (member? "expected_image_id" ms);
  expected_repository_digest = text_of (member? "expected_repository_digest" ms);
}

abbrev pub read_plan : Members → SystemUpdatePortReconfiguration
read_plan ms = record {
  port_contract_version = number_of (member? "port_contract_version" ms);
  mode = text_of (member? "mode" ms);
  before = nil_of read_snapshot_ref (member? "before" ms);
  target = nil_of read_snapshot_ref (member? "target" ms);
  rollback = nil_of read_snapshot_ref (member? "rollback" ms);
  docker_baseline = nil_of read_docker_baseline (member? "docker_baseline" ms);
  network_namespace = text_of (member? "network_namespace" ms);
  protocol = text_of (member? "protocol" ms);
  old_port = number_of (member? "old_port" ms);
  new_port = number_of (member? "new_port" ms);
  expected_endpoint_revision = number_of (member? "expected_endpoint_revision" ms);
  target_endpoint_revision = number_of (member? "target_endpoint_revision" ms);
  expected_config_revision = number_of (member? "expected_config_revision" ms);
  target_config_revision = number_of (member? "target_config_revision" ms);
  expected_config_sha256 = text_of (member? "expected_config_sha256" ms);
  target_config_sha256 = text_of (member? "target_config_sha256" ms);
  expected_source_policy_revision = number_of (member? "expected_source_policy_revision" ms);
  expected_updater_policy_revision = number_of (member? "expected_updater_policy_revision" ms);
  expected_executor_policy_revision = number_of (member? "expected_executor_policy_revision" ms);
  expected_executor_policy_sha256 = text_of (member? "expected_executor_policy_sha256" ms);
  port_plan_sha256 = text_of (member? "port_plan_sha256" ms);
  docker = nil_of read_legacy_docker (member? "docker" ms);
  result = text_of (member? "result" ms);
}
