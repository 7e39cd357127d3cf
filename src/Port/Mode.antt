-- ===== src/Port/Mode.antt =====
-- The constants of `SystemUpdatePortMode`, in pkg/contracts/system_update_port_v2.go.
use autostream_contracts.Common.{String}

abbrev pub local_only : String
local_only = "local_only"

abbrev pub local_and_advertised : String
local_and_advertised = "local_and_advertised"
