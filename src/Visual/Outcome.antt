-- ===== src/Visual/Outcome.antt =====
-- The constants of `EncoderVideoCoverApplyOutcome`, in pkg/contracts/types_visual.go.
use autostream_contracts.Common.{String}

abbrev pub applied : String
applied = "applied"

abbrev pub rejected : String
rejected = "rejected"

abbrev pub ambiguous : String
ambiguous = "ambiguous"
