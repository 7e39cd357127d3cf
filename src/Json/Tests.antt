-- ===== src/Json/Tests.antt =====
-- Runs of the canonical form, and its theorems at concrete inputs.
use autostream_contracts.Common.{
  ℤ, Option, ◌↔◌, ◌≡◌, refl, ◌≢◌, String, pos, negsuc, some, true, arith, eq_iff,
}
use autostream_contracts.Json.{Json, number, text, boolean, object, member, no_members}
use autostream_contracts.Json.Canonical.{canonical}
use autostream_contracts.Json.Strict.{decode_strict}
use autostream_contracts.Json.Strict.Clean.{Within, Clean, decode_strict-iff-Clean}
use autostream_contracts.Json.Canonical.Order.{swapped, canonical-Reordered}

a_ne_b : ◌≢◌ {A = String} "b" "a"
a_ne_b = ground (arith, eq_iff "b" "a")

canonical_run :
    canonical (object (member "b" (number (negsuc 11)) (member "a" (text "x\"y") no_members)))
    ≡ some "{\"a\":\"x\\\"y\",\"b\":-12}"
unfolding canonical
canonical_run = refl

canonical-Reordered_example :
    canonical (object (member "b" (number (pos 2)) (member "a" (boolean true) no_members)))
    ≡ canonical (object (member "a" (boolean true) (member "b" (number (pos 2)) no_members)))
canonical-Reordered_example =
    canonical-Reordered (swapped "b" "a" (number (pos 2)) (boolean true) a_ne_b)

abbrev sample_document : Json
sample_document = object (member "a" (number (pos 1)) (member "b" (boolean true) no_members))

abbrev read_sample : String → Option Json
read_sample payload = some sample_document

abbrev decode_sample : Json → Option ℤ
decode_sample document = some (pos 1)

decode_strict-iff-Clean_example :
    (decode_strict read_sample decode_sample "{}" ≡ some (pos 1, sample_document)) ↔ (
      (read_sample "{}" ≡ some sample_document)
      × (decode_sample sample_document ≡ some (pos 1))
      × ((part : Json) → Within part sample_document → Clean part))
decode_strict-iff-Clean_example =
    decode_strict-iff-Clean read_sample decode_sample "{}" (pos 1) sample_document
