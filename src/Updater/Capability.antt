-- ===== src/Updater/Capability.antt =====
-- The constants of `UpdaterCapability` that an operation needs, in pkg/contracts/types_updater_protocol.go.
use autostream_contracts.Common.{String}

abbrev pub update : String
update = "host.update"

abbrev pub bootstrap : String
bootstrap = "host.bootstrap"

abbrev pub port : String
port = "host.port"

abbrev pub self_update : String
self_update = "host.self_update"
