-- ===== src/Port/DockerConfig.antt =====
-- `SystemUpdatePortDockerConfig` and `SystemUpdateDockerPortConfigSHA256` of
-- pkg/contracts/system_update_port_v2.go.
pub mod Read
use Prim.Native.String
use autostream_contracts.Common.{
  String, Bool, ◌&&◌, Option, none, some, ℤ, pos, ◌==◌, String_eq, if◌then◌else◌, Result, ok, err,
  require, ◌>>◌, ◌>>=◌, system_update_port_contract,
}
use autostream_contracts.Text.Digest.{Sha256, compute_bytes_sha256}
use autostream_contracts.Json.Decimal.{decimal_ℤ}
use autostream_contracts.Port.ServiceType
use autostream_contracts.Port.Snapshot.{valid_revision, valid_port}

-- The switch: the variables' prefix.
unfoldable pub variable_prefix : String → Option String
variable_prefix service_type =
    if service_type == ServiceType.worker
    then some "AUTOSTREAM_WORKER"
    else if service_type == ServiceType.encoder_recorder
    then some "AUTOSTREAM_ENCODER_RECORDER"
    else if service_type == ServiceType.discord_bot
    then some "AUTOSTREAM_DISCORD_BOT"
    else if service_type == ServiceType.observability
    then some "AUTOSTREAM_OBSERVABILITY"
    else none

-- The format of the three lines.
unfoldable pub docker_config_text : String → ℤ → ℤ → ℤ → String
docker_config_text prefix published_port container_port revision = String.◌++◌ prefix (
    String.◌++◌ "_PORT=" (
      String.◌++◌ (decimal_ℤ published_port) (
        String.◌++◌ "\n" (
          String.◌++◌ prefix (
            String.◌++◌ "_CONTAINER_PORT=" (
              String.◌++◌ (decimal_ℤ container_port) (
                String.◌++◌ "\n" (
                  String.◌++◌ "AUTOSTREAM_CONFIG_REVISION="
                    (String.◌++◌ (decimal_ℤ revision) "\n")))))))))

-- `SystemUpdatePortDockerConfig`
unfoldable pub docker_config : String → ℤ → ℤ → ℤ → Result String
docker_config service_type published_port container_port revision = do
  require
      (valid_port published_port (pos 1024)
        && valid_port container_port (pos 1024)
        && valid_revision revision)
      system_update_port_contract
  elim (variable_prefix service_type) [
    | none ↦ err system_update_port_contract
    | some prefix ↦ ok (docker_config_text prefix published_port container_port revision)
  ]

-- `SystemUpdateDockerPortConfigSHA256`
unfoldable pub docker_config_sha256 : Sha256 → String → ℤ → ℤ → ℤ → Result String
docker_config_sha256 sha service_type published_port container_port revision = do
  payload ← docker_config service_type published_port container_port revision
  ok (compute_bytes_sha256 sha payload)
