-- ===== src/Port/ServiceType.antt =====
-- The constants of `SystemUpdateTargetType`, in pkg/contracts/types_system_updates.go.
use autostream_contracts.Common.{String}

abbrev pub control_panel : String
control_panel = "control_panel"

abbrev pub discord_bot : String
discord_bot = "discord_bot"

abbrev pub encoder_recorder : String
encoder_recorder = "encoder_recorder"

abbrev pub observability : String
observability = "observability"

abbrev pub update_agent : String
update_agent = "update_agent"

abbrev pub worker : String
worker = "worker"
