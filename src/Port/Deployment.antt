-- ===== src/Port/Deployment.antt =====
-- The constants of `SystemUpdateDeploymentMode`, in pkg/contracts/types_system_updates.go.
use autostream_contracts.Common.{String}

abbrev pub systemd : String
systemd = "systemd"

abbrev pub docker : String
docker = "docker"
