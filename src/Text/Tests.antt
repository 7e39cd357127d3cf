-- ===== src/Text/Tests.antt =====
-- Runs of the text tests, and their theorems at concrete inputs.
use autostream_contracts.Common.{◌≡◌, refl, true, false}
use autostream_contracts.Text.{valid_updater_identifier, matches_raw_sha256, valid_baseline_version}
use autostream_contracts.Text.Bytes.{valid_visual_identifier, valid_visual_sha256}
use autostream_contracts.Text.Agreement.{
  visual_identifier-eq-updater_identifier, visual_sha256-eq-raw_sha256,
}

good_version : valid_baseline_version "v1.22.3-rc.1" ≡ true
unfolding valid_baseline_version
good_version = refl

bad_version : valid_baseline_version "v1.22.3-rc." ≡ false
unfolding valid_baseline_version
bad_version = refl

good_identifier : valid_updater_identifier "host-1.example:7" ≡ true
unfolding valid_updater_identifier
good_identifier = refl

visual_identifier-eq-updater_identifier_example :
    valid_visual_identifier "é-1" ≡ valid_updater_identifier "é-1"
visual_identifier-eq-updater_identifier_example = visual_identifier-eq-updater_identifier "é-1"

visual_sha256-eq-raw_sha256_example : valid_visual_sha256 "0f" ≡ matches_raw_sha256 "0f"
visual_sha256-eq-raw_sha256_example = visual_sha256-eq-raw_sha256 "0f"
