-- ===== src/Updater/TargetKind.antt =====
-- The constants of `UpdaterTargetKind`, in pkg/contracts/types_updater_protocol.go.
use autostream_contracts.Common.{String}

abbrev pub application : String
application = "application"

abbrev pub update_agent : String
update_agent = "update_agent"

abbrev pub host_runtime : String
host_runtime = "host_runtime"
