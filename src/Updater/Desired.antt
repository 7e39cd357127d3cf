-- ===== src/Updater/Desired.antt =====
-- The constants of `UpdaterDesiredOperationType`, in pkg/contracts/types_updater_protocol.go.
use autostream_contracts.Common.{String}

abbrev pub software_update : String
software_update = "software_update"

abbrev pub bootstrap : String
bootstrap = "bootstrap"

abbrev pub port_reconfigure : String
port_reconfigure = "port_reconfigure"

abbrev pub host_self_update : String
host_self_update = "host_self_update"
