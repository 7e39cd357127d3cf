-- ===== src/Text.antt =====
-- The text tests of pkg/contracts/updater_runtime_validation.go, system_update_port_v2.go and
-- visual_runtime_validation.go. A Go string is a `String`, a list of characters; `bytes` is its
-- UTF-8 form, which `len` and indexing read. A regular expression is a function that reads the
-- characters from the left.
pub mod Bytes
pub mod Agreement
pub mod Digest
mod Tests
use Prim.Native.Char.{Char, code}
use Prim.Native.String
use autostream_contracts.Common.{
  ℕ, suc, ◌+◌, ◌/◌, ◌%◌, String, Bool, true, false, not, ◌&&◌, ◌||◌, List, [], ◌∷◌, ◌++◌, leb, ltb,
  ◌==◌, ℕ_eq, String_eq, length, if◌then◌else◌, Option, none, some,
}

unfoldable pub is_digit : ℕ → Bool
is_digit c = leb b'0' c && leb c b'9'

unfoldable pub is_upper : ℕ → Bool
is_upper c = leb b'A' c && leb c b'Z'

unfoldable pub is_lower : ℕ → Bool
is_lower c = leb b'a' c && leb c b'z'

-- `[A-Za-z0-9]`
unfoldable pub is_alphanumeric : ℕ → Bool
unfolding is_digit is_upper is_lower
is_alphanumeric c = is_upper c || is_lower c || is_digit c

-- `[A-Za-z0-9._:-]`
unfoldable pub is_identifier_character : ℕ → Bool
unfolding is_alphanumeric
is_identifier_character c = is_alphanumeric c || c == b'.' || c == b'_' || c == b':' || c == b'-'

-- `[a-f0-9]`
unfoldable pub is_hex : ℕ → Bool
unfolding is_digit
is_hex c = (leb b'a' c && leb c b'f') || is_digit c

-- A character that the idempotency keys and grant tokens may hold.
unfoldable pub is_printable : ℕ → Bool
is_printable c = not (leb c 0x1f || c == 0x7f)

unfoldable pub all_characters : (ℕ → Bool) → String → Bool
all_characters p String.[] = true
all_characters p (String.◌∷◌ c s) = p (code c) && all_characters p s

unfoldable pub character_count : String → ℕ
character_count String.[] = 0
character_count (String.◌∷◌ c s) = suc (character_count s)

-- The UTF-8 bytes of a code point.
unfoldable pub utf8 : ℕ → List ℕ
utf8 c =
    if ltb c 128
    then c ∷ []
    else if ltb c 2048
    then (192 + c / 64) ∷ (128 + c % 64) ∷ []
    else if ltb c 65536
    then (224 + c / 4096) ∷ (128 + c / 64 % 64) ∷ (128 + c % 64) ∷ []
    else (240 + c / 262144) ∷ (128 + c / 4096 % 64) ∷ (128 + c / 64 % 64) ∷ (128 + c % 64) ∷ []

unfoldable pub bytes : String → List ℕ
unfolding utf8
bytes String.[] = []
bytes (String.◌∷◌ c s) = utf8 (code c) ++ bytes s

-- Go's `len` of a string.
unfoldable pub byte_length : String → ℕ
unfolding bytes
byte_length s = length (bytes s)

-- `^[A-Za-z0-9][A-Za-z0-9._:-]{low,high}$`
unfoldable pub identifier_pattern : ℕ → ℕ → String → Bool
unfolding is_identifier_character all_characters character_count
identifier_pattern low high String.[] = false
identifier_pattern low high (String.◌∷◌ c s) =
    is_alphanumeric (code c)
    && all_characters is_identifier_character s
    && leb low (character_count s)
    && leb (character_count s) high

unfoldable pub valid_updater_identifier : String → Bool
unfolding identifier_pattern
valid_updater_identifier value = identifier_pattern 0 127 value

-- `updaterHostIDPattern`
unfoldable pub matches_host_id : String → Bool
unfolding identifier_pattern
matches_host_id value = identifier_pattern 0 190 value

-- `updaterNoncePattern`
unfoldable pub matches_nonce : String → Bool
unfolding identifier_pattern
matches_nonce value = identifier_pattern 15 127 value

-- `updaterRawSHA256Pattern`
unfoldable pub matches_raw_sha256 : String → Bool
unfolding all_characters is_hex character_count
matches_raw_sha256 value = all_characters is_hex value && character_count value == 64

-- What follows a prefix, if the text has it.
unfoldable pub strip_prefix? : String → String → Option String
strip_prefix? String.[] s = some s
strip_prefix? (String.◌∷◌ c p) String.[] = none
strip_prefix? (String.◌∷◌ c p) (String.◌∷◌ d s) =
    if code c == code d then strip_prefix? p s else none

-- `strings.TrimPrefix`
unfoldable pub trim_prefix : String → String → String
unfolding strip_prefix?
trim_prefix s p = elim (strip_prefix? p s) [ none ↦ s | some rest ↦ rest ]

-- `strings.HasPrefix`
unfoldable pub has_prefix : String → String → Bool
unfolding strip_prefix?
has_prefix s p = elim (strip_prefix? p s) [ none ↦ false | some rest ↦ true ]

-- `updaterDigestPattern`: `^sha256:[a-f0-9]{64}$`
unfoldable pub matches_digest : String → Bool
unfolding strip_prefix? matches_raw_sha256
matches_digest value = elim (strip_prefix? "sha256:" value) [
  | none ↦ false
  | some rest ↦ matches_raw_sha256 rest
]

unfoldable pub valid_updater_idempotency_key : String → Bool
unfolding byte_length all_characters is_printable
valid_updater_idempotency_key value =
    not (value == "") && leb (byte_length value) 128 && all_characters is_printable value

-- `validSystemUpdatePortContainerID`
unfoldable pub valid_container_id : String → Bool
unfolding byte_length all_characters is_hex
valid_container_id id =
    leb 12 (byte_length id) && leb (byte_length id) 64 && all_characters is_hex id

-- Where a reader of `systemUpdatePortBaselineVersionPattern` stands: before a number, in it, before
-- a part of the suffix, in it.
pub data VersionState : Type 0 where
  start major_start major minor_start minor patch_start patch part_start part : VersionState

abbrev version_ends : VersionState → Bool
version_ends patch = true
version_ends part = true
version_ends _ = false

abbrev version_step : VersionState → ℕ → Option VersionState
version_step start c = if c == b'v' then some major_start else none
version_step major_start c = if is_digit c then some major else none
version_step major c =
    if is_digit c then some major else if c == b'.' then some minor_start else none
version_step minor_start c = if is_digit c then some minor else none
version_step minor c =
    if is_digit c then some minor else if c == b'.' then some patch_start else none
version_step patch_start c = if is_digit c then some patch else none
version_step patch c =
    if is_digit c then some patch else if c == b'-' then some part_start else none
version_step part_start c = if is_alphanumeric c then some part else none
version_step part c =
    if is_alphanumeric c
    then some part
    else if c == b'.' || c == b'-'
    then some part_start
    else none

version_from : VersionState → String → Bool
version_from state String.[] = version_ends state
version_from state (String.◌∷◌ c s) = elim (version_step state (code c)) [
  | none ↦ false
  | some next ↦ version_from next s
]

-- `validSystemUpdatePortBaselineVersion`
unfoldable pub valid_baseline_version : String → Bool
unfolding byte_length version_from is_alphanumeric
valid_baseline_version version = leb (byte_length version) 128 && version_from start version
