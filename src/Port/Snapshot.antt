-- ===== src/Port/Snapshot.antt =====
-- The tests on revisions, ports and snapshot references of
-- pkg/contracts/system_update_port_v2.go, and the two closed vocabularies of
-- updater_runtime_validation.go that the port contract shares.
use Prim.Native.String
use autostream_contracts.Common.{
  String, Bool, true, false, ◌&&◌, ◌||◌, Option, none, some, ℤ, pos, leb_ℤ, ltb_ℤ, ◌==◌, ℤ_eq,
  String_eq,
}
use autostream_contracts.Text.{matches_digest, trim_prefix}
use autostream_contracts.Port.Types.{SystemUpdatePortDockerSnapshot, SystemUpdatePortSnapshotRef}
use autostream_contracts.Port.ServiceType
use autostream_contracts.Port.Deployment

-- `validSystemUpdatePortRevision`: the limit is the largest I-JSON safe integer.
unfoldable pub valid_revision : ℤ → Bool
valid_revision value = ltb_ℤ (pos 0) value && leb_ℤ value (pos 9007199254740991)

-- `validSystemUpdatePort`
unfoldable pub valid_port : ℤ → ℤ → Bool
valid_port value minimum = leb_ℤ minimum value && leb_ℤ value (pos 65535)

unfoldable pub valid_docker_snapshot : SystemUpdatePortDockerSnapshot → ℤ → Bool
valid_docker_snapshot d local_port =
    d.published_host_ip == "127.0.0.1"
    && d.published_port == local_port
    && valid_port d.published_port (pos 1024)
    && valid_port d.container_port (pos 1024)
    && d.health_port == d.published_port
    && valid_revision d.compose_revision
    && matches_digest d.compose_policy_sha256
    && matches_digest d.version_env_sha256
    && matches_digest d.image_id
    && matches_digest d.repository_digest

abbrev pub docker_valid : Option SystemUpdatePortDockerSnapshot → ℤ → Bool
docker_valid none local_port = true
docker_valid (some d) local_port = valid_docker_snapshot d local_port

unfoldable pub valid_snapshot_ref : SystemUpdatePortSnapshotRef → Bool
valid_snapshot_ref ref =
    matches_digest ref.snapshot_sha256
    && ref.snapshot_id == String.◌++◌ "ps1:" (trim_prefix ref.snapshot_sha256 "sha256:")
    && valid_revision ref.source_policy_revision
    && valid_revision ref.projection_revision
    && valid_revision ref.executor_policy_revision
    && valid_revision ref.endpoint_revision
    && valid_revision ref.applied_endpoint_revision
    && leb_ℤ ref.applied_endpoint_revision ref.endpoint_revision
    && valid_revision ref.config_revision
    && matches_digest ref.executor_policy_sha256
    && matches_digest ref.config_sha256
    && matches_digest ref.advertised_endpoint_sha256
    && valid_port ref.advertised_port (pos 1)
    && valid_port ref.local_listen_port (pos 1024)
    && docker_valid ref.docker ref.local_listen_port

abbrev docker_ports_equal :
    Option SystemUpdatePortDockerSnapshot → Option SystemUpdatePortDockerSnapshot → Bool
docker_ports_equal none none = true
docker_ports_equal none (some r) = false
docker_ports_equal (some l) none = false
docker_ports_equal (some l) (some r) =
    l.published_port == r.published_port && l.container_port == r.container_port

-- `systemUpdatePortLocalEqual`
unfoldable pub local_equal : SystemUpdatePortSnapshotRef → SystemUpdatePortSnapshotRef → Bool
local_equal left right =
    left.local_listen_port == right.local_listen_port && docker_ports_equal left.docker right.docker

-- `validUpdaterApplicationServiceType`
unfoldable pub valid_application_service_type : String → Bool
valid_application_service_type t =
    t == ServiceType.control_panel
    || t == ServiceType.discord_bot
    || t == ServiceType.encoder_recorder
    || t == ServiceType.observability
    || t == ServiceType.worker

-- `validUpdaterDeploymentMode`
unfoldable pub valid_deployment_mode : String → Bool
valid_deployment_mode m = m == Deployment.systemd || m == Deployment.docker
