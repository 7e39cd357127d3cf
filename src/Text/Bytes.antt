-- ===== src/Text/Bytes.antt =====
-- The byte-wise text tests of pkg/contracts/visual_runtime_validation.go.
use Prim.Native.Char.{code}
use autostream_contracts.Common.{
  ℕ, suc, String, Bool, true, false, not, ◌&&◌, ◌||◌, List, [], ◌∷◌, leb, ◌==◌, ℕ_eq, length, all,
}
use autostream_contracts.Text.{
  is_alphanumeric, is_identifier_character, is_hex, is_printable, all_characters, character_count,
  bytes,
}

-- The body of `validVisualIdentifier`: the loop starts at index 1.
unfoldable pub identifier_bytes : List ℕ → Bool
unfolding is_identifier_character
identifier_bytes [] = false
identifier_bytes (b ∷ bs) =
    leb (length (b ∷ bs)) 128 && is_alphanumeric b && all is_identifier_character bs

unfoldable pub valid_visual_identifier : String → Bool
unfolding identifier_bytes bytes
valid_visual_identifier value = identifier_bytes (bytes value)

unfoldable pub valid_visual_sha256 : String → Bool
unfolding is_hex bytes
valid_visual_sha256 value = length (bytes value) == 64 && all is_hex (bytes value)

-- `unicode.IsSpace`
unfoldable pub is_space : ℕ → Bool
is_space c =
    (leb 9 c && leb c 13)
    || c == 0x20
    || c == 0x85
    || c == 0xa0
    || c == 0x1680
    || (leb 0x2000 c && leb c 0x200a)
    || c == 0x2028
    || c == 0x2029
    || c == 0x202f
    || c == 0x205f
    || c == 0x3000

unfoldable pub visual_idempotency_edge_space : ℕ → Bool
unfolding is_space
visual_idempotency_edge_space c = is_space c || c == 0xfeff

-- A test of the last character; the text is not empty.
last_is : (ℕ → Bool) → ℕ → String → Bool
last_is p c String.[] = p c
last_is p c (String.◌∷◌ d s) = last_is p (code d) s

unfoldable pub valid_visual_idempotency_key : String → Bool
unfolding character_count all_characters is_printable visual_idempotency_edge_space last_is
valid_visual_idempotency_key String.[] = false
valid_visual_idempotency_key (String.◌∷◌ c s) =
    leb (suc (character_count s)) 128
    && not (visual_idempotency_edge_space (code c))
    && not (last_is visual_idempotency_edge_space (code c) s)
    && is_printable (code c)
    && all_characters is_printable s

-- `s == strings.TrimSpace(s)`
unfoldable pub no_edge_space : String → Bool
unfolding is_space last_is
no_edge_space String.[] = true
no_edge_space (String.◌∷◌ c s) = not (is_space (code c)) && not (last_is is_space (code c) s)
