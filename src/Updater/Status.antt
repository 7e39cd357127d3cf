-- ===== src/Updater/Status.antt =====
-- The constants of `SystemUpdateStatus` that a result may have, in
-- pkg/contracts/types_system_updates.go.
use autostream_contracts.Common.{String}

abbrev pub reconciling : String
reconciling = "reconciling"

abbrev pub succeeded : String
succeeded = "succeeded"

abbrev pub rolled_back : String
rolled_back = "rolled_back"

abbrev pub failed : String
failed = "failed"

abbrev pub canceled : String
canceled = "canceled"
