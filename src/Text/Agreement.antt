-- ===== src/Text/Agreement.antt =====
-- The package tests identifiers and digests twice: by regular expressions over characters
-- (updater_runtime_validation.go) and by loops over bytes (visual_runtime_validation.go).
use Prim.Native.Char.{code}
use autostream_contracts.Common.{
  and_true, leb, ltb→lt, sym, ℕ, ◌+◌, ◌/◌, ◌≤◌, ◌<◌, String, ◌≡◌, refl, Bool, true, false, ◌&&◌,
  List, [], ◌∷◌, ◌++◌, arith, length, all, ltb, Bool-cases, length-append, inl, inr,
}
use autostream_contracts.Text.{
  is_alphanumeric, is_identifier_character, is_hex, all_characters, character_count, utf8, bytes,
  valid_updater_identifier, matches_raw_sha256,
}
use autostream_contracts.Text.Bytes.{identifier_bytes, valid_visual_identifier, valid_visual_sha256}

-- A test that fails on every code from 128 up gives one answer on the characters and on the bytes.
module _ (p : ℕ → Bool) (ascii : (c : ℕ) → p c ≡ true → c < 128) where
  wide_fails : (c : ℕ) → 128 ≤ c → p c ≡ false
  wide_fails c h = elim (Bool-cases (p c)) [ inl e ↦ absurd (omega (arith, ascii c e)) | inr e ↦ e ]

  all-utf8 : (c : ℕ) (rest : List ℕ) → all p (utf8 c ++ rest) ≡ (p c && all p rest)
  unfolding utf8
  all-utf8 c rest = elim (Bool-cases (ltb c 128)) [
    | inl e ↦ rw e
    | inr e ↦ ground (
      arith,
      wide_fails c,
      wide_fails (192 + c / 64),
      wide_fails (224 + c / 4096),
      wide_fails (240 + c / 262144),
    )
  ]

  pub all-bytes : (s : String) → all p (bytes s) ≡ all_characters p s
  unfolding bytes all_characters
  all-bytes String.[] = refl
  all-bytes (String.◌∷◌ c s) = rw (all-utf8 (code c) (bytes s)) (rw (all-bytes s))

  length-utf8 : (c : ℕ) → p c ≡ true → length (utf8 c) ≡ 1
  unfolding utf8
  length-utf8 c h = ground (arith, ascii c h)

  pub length-bytes : (s : String) → all_characters p s ≡ true → length (bytes s) ≡ character_count s
  unfolding bytes all_characters character_count
  length-bytes String.[] h = refl
  length-bytes (String.◌∷◌ c s) h =
      let (here, later) = and_true (p (code c)) (all_characters p s) h in
      omega (
        arith,
        length-append (utf8 (code c)) (bytes s),
        length-utf8 (code c) here,
        length-bytes s later,
      )

identifier_character_ascii : (c : ℕ) → is_identifier_character c ≡ true → c < 128
unfolding is_identifier_character
identifier_character_ascii c h = grind arith

hex_ascii : (c : ℕ) → is_hex c ≡ true → c < 128
unfolding is_hex
hex_ascii c h = grind arith

alphanumeric_identifier : (c : ℕ) → is_alphanumeric c ≡ true → is_identifier_character c ≡ true
unfolding is_identifier_character
alphanumeric_identifier c h = grind arith

alphanumeric_ascii : (c : ℕ) → is_alphanumeric c ≡ true → c < 128
unfolding is_alphanumeric
alphanumeric_ascii c h = grind arith

-- A text that begins with a byte above the letters is refused.
first_byte : (c : ℕ) (rest : List ℕ) → 128 ≤ c → identifier_bytes (utf8 c ++ rest) ≡ false
unfolding utf8 identifier_bytes
first_byte c rest h = ground (
  arith,
  alphanumeric_ascii (192 + c / 64),
  alphanumeric_ascii (224 + c / 4096),
  alphanumeric_ascii (240 + c / 262144),
)

-- After a first character of one byte, the two tests read the same characters.
first_ascii :
    (c : ℕ) (s : String)
    → identifier_bytes (c ∷ bytes s) ≡ (
        is_alphanumeric c
        && all_characters is_identifier_character s
        && leb 0 (character_count s)
        && leb (character_count s) 127)
unfolding identifier_bytes
first_ascii c s = ground (
  arith,
  all-bytes is_identifier_character identifier_character_ascii s,
  length-bytes is_identifier_character identifier_character_ascii s,
)

not_first :
    (c : ℕ) (s : String)
    → 128 ≤ c
    → (is_alphanumeric c
        && all_characters is_identifier_character s
        && leb 0 (character_count s)
        && leb (character_count s) 127)
      ≡ false
not_first c s h = ground (arith, alphanumeric_ascii c)

utf8_ascii : (c : ℕ) → c < 128 → utf8 c ≡ c ∷ []
unfolding utf8
utf8_ascii c h = ground arith

-- The loop of the visual runtime over the bytes and the regular expression of the Updater over the
-- characters accept the same identifiers.
pub visual_identifier-eq-updater_identifier :
    (value : String) → valid_visual_identifier value ≡ valid_updater_identifier value
unfolding valid_visual_identifier valid_updater_identifier bytes
visual_identifier-eq-updater_identifier String.[] = refl
visual_identifier-eq-updater_identifier (String.◌∷◌ c s) = elim (Bool-cases (ltb (code c) 128)) [
  | inl e ↦ rw (utf8_ascii (code c) (ltb→lt _ _ e), bytes) (first_ascii (code c) s)
  | inr e ↦
      let wide : 128 ≤ code c = ground arith in
      rw (first_byte (code c) (bytes s) wide) (sym (not_first (code c) s wide))
]

-- The loop over 64 bytes and the regular expression accept the same raw digests.
pub visual_sha256-eq-raw_sha256 :
    (value : String) → valid_visual_sha256 value ≡ matches_raw_sha256 value
unfolding valid_visual_sha256 matches_raw_sha256
visual_sha256-eq-raw_sha256 value =
    ground (arith, all-bytes is_hex hex_ascii value, length-bytes is_hex hex_ascii value)
