-- ===== src/Json/Entry.antt =====
-- The tests of a raw document and the shape of the entry points that run them, in
-- pkg/contracts/updater_runtime_validation.go and system_update_port_validation.go: a payload is
-- decoded strictly, its document is tested while the presence of its members can be seen, and the
-- decoded value goes to its validator. The repeated keys that a Go map would drop are excluded
-- before a document is tested.
pub mod Accepted
use autostream_contracts.Common.{
  ℕ, suc, ◌&&◌, String, Bool, true, false, Option, none, some, Check, ContractError, err,
  if◌then◌else◌,
}
use autostream_contracts.Json.{
  Json, text, array, object, Items, no_items, item, Members, no_members, member, member?,
}
use autostream_contracts.Json.Strict.{decode_strict}

-- `v.(map[string]any)` and a test of it.
abbrev pub is_object : (Members → Bool) → Json → Bool
is_object test (object ms) = test ms
is_object test _ = false

-- A test of `object[key]`, where a missing key is nil.
abbrev pub required_value : (Json → Bool) → Option Json → Bool
required_value test none = false
required_value test (some value) = test value

-- A test of `object[key]` where it is present.
abbrev pub optional_value : (Json → Bool) → Option Json → Bool
optional_value test none = true
optional_value test (some value) = test value

-- `text, _ := object[key].(string)`
abbrev pub text_of : Option Json → String
text_of (some (text s)) = s
text_of _ = ""

unfoldable pub count_items : Items → ℕ
count_items no_items = 0
count_items (item x xs) = suc (count_items xs)

-- `len(object)`
unfoldable pub count_members : Members → ℕ
count_members no_members = 0
count_members (member k v ms) = suc (count_members ms)

-- A test of every element of an array.
unfoldable pub each_item : (Json → Bool) → Items → Bool
each_item test no_items = true
each_item test (item x xs) = test x && each_item test xs

abbrev pub checked {ℓ} :
    {Value : Type ℓ}
    → (Json → Bool)
    → ContractError
    → (Value → Check)
    → Option (Value × Json)
    → Check
checked test failure validate none = err failure
checked test failure validate (some (value, document)) =
    if test document then validate value else err failure

-- `document, err := decodeUpdaterStrictJSON(payload, &value)`, the test of the document, and the
-- validator of the value.
unfoldable pub entry {ℓ} :
    {Value : Type ℓ}
    → (String → Option Json)
    → (Json → Option Value)
    → (Json → Bool)
    → ContractError
    → (Value → Check)
    → String
    → Check
entry read_json decode test failure validate payload =
    checked test failure validate (decode_strict read_json decode payload)
