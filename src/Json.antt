-- ===== src/Json.antt =====
-- JSON documents as `encoding/json` gives them, and the canonical form of `appendUpdaterJCS` in
-- pkg/contracts/updater_runtime_validation.go. Every number of the encoded structures is an
-- integer: a float64 holds it exactly up to 2 ^ 53 - 1, and one that is larger rounds to a value
-- which is larger too, so the limit of `appendUpdaterJCSFloat` may be tested on the integer. A
-- number that is written with a fraction or an exponent is a `fraction`: one may be read, but none
-- is ever encoded.
pub mod Decimal
pub mod Canonical
pub mod Strict
pub mod Entry
pub mod Rows
mod Tests
use Prim.Native.Char.{Char, code}
use Prim.Native.String
use Prim.Native.String.{char_at}
use autostream_contracts.Common.{
  ℕ, suc, ◌/◌, ◌%◌, String, Bool, true, false, not, ◌&&◌, ◌||◌, List, [], ◌∷◌, Option, none, some,
  leb, ltb, ◌==◌, ℕ_eq, String_eq, ℤ, pos, negsuc, if◌then◌else◌, is_nil,
}

mutual
  pub data Json : Type 0 where
    null : Json
    boolean : Bool → Json
    number : ℤ → Json
    fraction : String → Json
    text : String → Json
    array : Items → Json
    object : Members → Json

  pub data Items : Type 0 where
    no_items : Items
    item : Json → Items → Items

  pub data Members : Type 0 where
    no_members : Members
    member : String → Json → Members → Members

-- `object[key]` of a Go map: the value, if the key is there.
unfoldable pub member? : String → Members → Option Json
member? key no_members = none
member? key (member k v ms) = if k == key then some v else member? key ms

-- `hasUpdaterField`
unfoldable pub has_updater_field : Members → String → Bool
unfolding member?
has_updater_field ms key = not (is_nil (member? key ms))

-- `requireUpdaterFields`
unfoldable pub require_updater_fields : Members → List String → Bool
unfolding has_updater_field
require_updater_fields ms [] = true
require_updater_fields ms (f ∷ fs) =
    if has_updater_field ms f then require_updater_fields ms fs else false

abbrev pub as_object : Json → Option Members
as_object (object ms) = some ms
as_object _ = none

abbrev pub as_array : Json → Option Items
as_array (array xs) = some xs
as_array _ = none

-- `v.(string)`, with "" for a value of another kind.
abbrev pub as_text : Json → String
as_text (text s) = s
as_text _ = ""

-- A structure's members: one that `omitempty` leaves out is `none`.
abbrev pub members : List (Option (String × Json)) → Members
members [] = no_members
members (none ∷ fs) = members fs
members (some (key, value) ∷ fs) = member key value (members fs)

abbrev pub items : List Json → Items
items [] = no_items
items (x ∷ xs) = item x (items xs)

abbrev pub keep : String → Json → Option (String × Json)
keep key value = some (key, value)

abbrev pub omit_text : String → String → Option (String × Json)
omit_text key value = if value == "" then none else some (key, text value)

abbrev pub is_zero : ℤ → Bool
is_zero (pos n) = n == 0
is_zero (negsuc n) = false

abbrev pub omit_number : String → ℤ → Option (String × Json)
omit_number key value = if is_zero value then none else some (key, number value)

abbrev pub omit_nil : {A : Type 0} → String → (A → Json) → Option A → Option (String × Json)
omit_nil key encode none = none
omit_nil key encode (some a) = some (key, encode a)
