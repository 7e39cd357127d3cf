-- ===== src/Updater/Platform.antt =====
-- What the Updater's validators call outside the package: SHA-256 of crypto/sha256, the compiled
-- schema of a desired operation (`loadUpdaterDesiredCanonicalSchema`, `none` where it did not
-- load), and `time.Time.MarshalJSON`.
use autostream_contracts.Common.{Bool, Option, String}
use autostream_contracts.Text.Digest.{Sha256}
use autostream_contracts.Json.{Json}
use autostream_contracts.Port.Types.{Timestamp}

pub record Platform : Type 0 where
  pub sha : Sha256
  pub desired_schema : Option (Json → Bool)
  pub marshal_time : Timestamp → Option String
