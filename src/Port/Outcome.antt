-- ===== src/Port/Outcome.antt =====
-- The constants of `SystemUpdatePortReconfigurationResult`, in
-- pkg/contracts/types_system_updates.go.
use autostream_contracts.Common.{String}

abbrev pub applied : String
applied = "applied"

abbrev pub rolled_back : String
rolled_back = "rolled_back"

abbrev pub unchanged : String
unchanged = "unchanged"

abbrev pub rollback_failed : String
rollback_failed = "rollback_failed"
