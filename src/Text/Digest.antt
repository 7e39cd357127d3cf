-- ===== src/Text/Digest.antt =====
-- `ComputeSystemUpdatePortBytesSHA256` of pkg/contracts/system_update_port_policy.go: the hash is
-- Go's crypto/sha256, a parameter with its documented size; the hexadecimal form is written out.
use Prim.Native.Char.{Char, code}
use Prim.Native.String
use Prim.Native.String.{char_at}
use text.Mathlib.TextLemmas.{nil-append, cons-append}
use autostream_contracts.Common.{
  ℕ, ◌/◌, ◌%◌, ◌*◌, ◌<◌, String, ◌≡◌, refl, true, List, [], ◌∷◌, arith, length, All, nat_beq_iff,
  some, all_below, all_below_sound,
}
use autostream_contracts.Text.{
  is_hex, all_characters, character_count, matches_raw_sha256, matches_digest, strip_prefix?,
  trim_prefix,
}

-- crypto/sha256: 32 bytes for every input.
pub record Sha256 : Type 0 where
  pub sum256 : String → List ℕ
  pub sum256_length : (payload : String) → length (sum256 payload) ≡ 32
  pub sum256_bytes : (payload : String) → All (λ b. b < 256) (sum256 payload)

hex_digit : ℕ → Char
hex_digit n = char_at "0123456789abcdef" n

-- `hex.EncodeToString`
unfoldable pub hex_encode : List ℕ → String
unfolding hex_digit
hex_encode [] = ""
hex_encode (b ∷ bs) =
    String.◌∷◌ (hex_digit (b / 16)) (String.◌∷◌ (hex_digit (b % 16)) (hex_encode bs))

hex_table : all_below 16 (λ n. is_hex (code (hex_digit n))) ≡ true
unfolding all_below is_hex hex_digit
hex_table = refl

hex_digit-is_hex : (n : ℕ) → n < 16 → is_hex (code (hex_digit n)) ≡ true
hex_digit-is_hex n h = all_below_sound 16 n _ hex_table h

hex_encode-is_hex :
    (bs : List ℕ) → All (λ b. b < 256) bs → all_characters is_hex (hex_encode bs) ≡ true
unfolding hex_encode all_characters
hex_encode-is_hex [] h = refl
hex_encode-is_hex (b ∷ bs) (here, later) =
    rw (hex_digit-is_hex (b / 16) (omega arith), hex_digit-is_hex (b % 16) (omega arith))
      (hex_encode-is_hex bs later)

count-hex_encode : (bs : List ℕ) → character_count (hex_encode bs) ≡ 2 * length bs
unfolding hex_encode character_count
count-hex_encode [] = refl
count-hex_encode (b ∷ bs) = omega (arith, count-hex_encode bs)

pub strip_prefix?-append : (p s : String) → strip_prefix? p (String.◌++◌ p s) ≡ some s
unfolding strip_prefix?
strip_prefix?-append String.[] s = rw (nil-append s)
strip_prefix?-append (String.◌∷◌ c p) s =
    rw (cons-append c p s) (rw ((nat_beq_iff (code c) (code c)).1 refl) (strip_prefix?-append p s))

module _ (sha : Sha256) where
  open sha use {sum256, sum256_length, sum256_bytes}

  unfoldable pub compute_bytes_sha256 : String → String
  unfolding hex_encode
  compute_bytes_sha256 payload = String.◌++◌ "sha256:" (hex_encode (sum256 payload))

  hex_of_sum-raw : (payload : String) → matches_raw_sha256 (hex_encode (sum256 payload)) ≡ true
  unfolding matches_raw_sha256
  hex_of_sum-raw payload = rw (hex_encode-is_hex (sum256 payload) (sum256_bytes payload)) (
      (nat_beq_iff _ _).1 (omega (arith, count-hex_encode (sum256 payload), sum256_length payload)))

  -- A computed digest has the form that `updaterDigestPattern` asks for, and less its prefix the
  -- form of `updaterRawSHA256Pattern`, for every payload.
  pub compute_bytes_sha256-IsDigest :
      (payload : String)
      → (matches_digest (compute_bytes_sha256 payload) ≡ true)
        × (matches_raw_sha256 (trim_prefix (compute_bytes_sha256 payload) "sha256:") ≡ true)
  unfolding matches_digest trim_prefix compute_bytes_sha256
  compute_bytes_sha256-IsDigest payload =
      let e = strip_prefix?-append "sha256:" (hex_encode (sum256 payload)) in
      (
        rw (e, matches_digest) (hex_of_sum-raw payload),
        rw (e, trim_prefix) (hex_of_sum-raw payload),
      )
