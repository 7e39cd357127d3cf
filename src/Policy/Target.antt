-- ===== src/Policy/Target.antt =====
-- A target of the root policy: what ties it to a snapshot reference, and what a change assigns, of
-- pkg/contracts/system_update_port_policy.go.
use autostream_contracts.Common.{
  Bool, true, false, ◌&&◌, Option, none, some, ℤ, add64, ◌==◌, ℤ_eq, String_eq, if◌then◌else◌,
}
use autostream_contracts.Text.{trim_prefix}
use autostream_contracts.Port.Types.{SystemUpdatePortSnapshotRef, SystemUpdatePortDockerSnapshot}
use autostream_contracts.Port.Snapshot.{valid_docker_snapshot}
use autostream_contracts.Policy.Root.{PortRootDocker, PortRootTarget}

abbrev pub docker_matches : Option PortRootDocker → Option SystemUpdatePortDockerSnapshot → Bool
docker_matches none none = true
docker_matches none (some docker) = false
docker_matches (some root) none = false
docker_matches (some root) (some docker) =
    root.port_compose_revision == docker.compose_revision
    && root.port_compose_policy_sha256 == trim_prefix docker.compose_policy_sha256 "sha256:"

-- `portRootTargetMatchesRef`
unfoldable pub root_target_matches_ref : PortRootTarget → SystemUpdatePortSnapshotRef → Bool
root_target_matches_ref target ref =
    target.endpoint_revision == ref.applied_endpoint_revision
    && target.config_revision == ref.config_revision
    && target.config_sha256 == ref.config_sha256
    && target.local_listen_endpoint.port == ref.local_listen_port
    && docker_matches target.docker ref.docker

-- What the change may do to the Docker part.
unfoldable pub docker_delta :
    SystemUpdatePortDockerSnapshot → SystemUpdatePortDockerSnapshot → ℤ → ℤ → Bool
docker_delta before after local_listen_port step =
    valid_docker_snapshot after local_listen_port
    && after.compose_revision == add64 before.compose_revision step
    && after.compose_policy_sha256 == before.compose_policy_sha256
    && after.version_env_sha256 == before.version_env_sha256
    && after.image_id == before.image_id
    && after.repository_digest == before.repository_digest

-- The new Docker part of a target; `none` where the loop returns its error. Where one of the three
-- parts is missing and another is not, the tests before have returned.
abbrev pub changed_docker :
    Option PortRootDocker
    → Option SystemUpdatePortDockerSnapshot
    → Option SystemUpdatePortDockerSnapshot
    → ℤ
    → ℤ
    → Option (Option PortRootDocker)
changed_docker none before after local_listen_port step = some none
changed_docker (some root) (some before) (some after) local_listen_port step =
    if docker_delta before after local_listen_port step
    then some (some (record root { port_compose_revision = after.compose_revision }))
    else none
changed_docker (some root) _ _ local_listen_port step = none

-- A target with the assigned fields.
unfoldable pub changed_target :
    PortRootTarget → SystemUpdatePortSnapshotRef → Option PortRootDocker → PortRootTarget
changed_target target after docker = record target {
  endpoint_revision = after.applied_endpoint_revision;
  config_revision = after.config_revision;
  config_sha256 = after.config_sha256;
  local_listen_endpoint = record target.local_listen_endpoint { port = after.local_listen_port };
  docker = docker;
}
