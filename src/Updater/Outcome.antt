-- ===== src/Updater/Outcome.antt =====
-- The constants of `UpdaterOutcome`, in pkg/contracts/types_updater_protocol.go.
use autostream_contracts.Common.{String}

abbrev pub succeeded : String
succeeded = "succeeded"

abbrev pub failed : String
failed = "failed"

abbrev pub rolled_back : String
rolled_back = "rolled_back"

abbrev pub ambiguous : String
ambiguous = "ambiguous"

abbrev pub canceled : String
canceled = "canceled"
