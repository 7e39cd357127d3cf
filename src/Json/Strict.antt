-- ===== src/Json/Strict.antt =====
-- `validateUpdaterJSONTokens` and `decodeUpdaterStrictJSON` of
-- pkg/contracts/updater_runtime_validation.go, and their twins of visual_runtime_validation.go. The
-- reading of one document to its end is a parameter: its object keeps its members in order and with
-- repetitions. The decoder into a structure, which refuses unknown fields, is another.
pub mod Clean
use autostream_contracts.Common.{
  String, Bool, true, false, not, ◌&&◌, Option, none, some, List, [], ◌∷◌, contains, if◌then◌else◌,
}
use autostream_contracts.Json.{
  Json, null, boolean, number, fraction, text, array, object, Items, no_items, item, Members,
  no_members, member,
}

unfoldable mutual
  -- `validateUpdaterJSONValue`
  pub strict_value : Json → Bool
  strict_value null = false
  strict_value (boolean b) = true
  strict_value (number n) = true
  strict_value (fraction s) = true
  strict_value (text s) = true
  strict_value (array xs) = strict_items xs
  strict_value (object ms) = strict_members [] ms

  pub strict_items : Items → Bool
  strict_items no_items = true
  strict_items (item x xs) = strict_value x && strict_items xs

  pub strict_members : List String → Members → Bool
  strict_members seen no_members = true
  strict_members seen (member k v ms) =
      not (contains seen k) && strict_value v && strict_members (k ∷ seen) ms

module _ {ℓ} {Value : Type ℓ} (read_json : String → Option Json)
    (decode : Json → Option Value) where
  abbrev pub with_document : Json → Option Value → Option (Value × Json)
  with_document document none = none
  with_document document (some value) = some (value, document)

  abbrev pub decode_document : Option Json → Option (Value × Json)
  decode_document none = none
  decode_document (some document) =
      if strict_value document then with_document document (decode document) else none

  -- `decodeUpdaterStrictJSON`: the decoded value and the document, `none` for its error.
  unfoldable pub decode_strict : String → Option (Value × Json)
  decode_strict payload = decode_document (read_json payload)
