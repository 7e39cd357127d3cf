-- ===== src/Json/Canonical.antt =====
-- `appendUpdaterJCS` and its parts, in pkg/contracts/updater_runtime_validation.go. The text is a
-- value: what the source has written to its buffer when it fails, every caller throws away. No
-- caller has a number with a fraction, for which the source tests the float64: the model rejects it.
pub mod Order
pub mod Layout
use Prim.Native.Char.{code}
use Prim.Native.String
use Prim.Native.String.{char_at}
use autostream_contracts.Common.{
  ℕ, ◌%◌, ◌/◌, String, Bool, true, false, ◌||◌, List, [], ◌∷◌, Option, none, some, ltb, ◌==◌, ℕ_eq,
  ℤ, pos_part, neg_part, if◌then◌else◌,
}
use autostream_contracts.Json.{
  Json, null, boolean, number, fraction, text, array, object, Items, no_items, item, Members,
  no_members, member, is_zero,
}
use autostream_contracts.Json.Decimal.{decimal_ℤ}

infixl 5 ◌>>=◌
abbrev pub ◌>>=◌ {ℓ κ} : {A : Type ℓ} {B : Type κ} → Option A → (A → Option B) → Option B
none >>= f = none
some a >>= f = f a

abbrev hex_escape : ℕ → String
hex_escape c = String.◌∷◌ (char_at "0123456789abcdef" (c % 16)) String.[]

-- What `encoding/json` writes for a character in place of it, with SetEscapeHTML(false).
escape? : ℕ → Option String
escape? c =
    if c == b'"'
    then some "\\\""
    else if c == 0x5c
    then some "\\\\"
    else if c == 8
    then some "\\b"
    else if c == 12
    then some "\\f"
    else if c == 10
    then some "\\n"
    else if c == 13
    then some "\\r"
    else if c == 9
    then some "\\t"
    else if ltb c 32
    then some (String.◌++◌ "\\u00" (String.◌++◌ (hex_escape (c / 16)) (hex_escape c)))
    else if c == 0x2028 || c == 0x2029
    then some (String.◌++◌ "\\u202" (hex_escape c))
    else none

escape_text : String → String
escape_text String.[] = "\""
escape_text (String.◌∷◌ c s) =
    let rest = escape_text s in
    elim (escape? (code c)) [ none ↦ String.◌∷◌ c rest | some escaped ↦ String.◌++◌ escaped rest ]

-- `appendUpdaterJCSString`
unfoldable pub canonical_string : String → String
unfolding escape_text escape?
canonical_string s = String.◌++◌ "\"" (escape_text s)

abbrev max_safe_integer : ℕ
max_safe_integer = 9007199254740991

-- `appendUpdaterJCSNumber` and `appendUpdaterJCSFloat` of an integer.
unfoldable pub canonical_number : ℤ → Option String
unfolding decimal_ℤ
canonical_number n =
    if ltb max_safe_integer (pos_part n) || ltb max_safe_integer (neg_part n)
    then none
    else if is_zero n
    then some "0"
    else some (decimal_ℤ n)

-- Go's order of strings: by their bytes, which is the order of their code points.
unfoldable pub text_le : String → String → Bool
text_le String.[] t = true
text_le (String.◌∷◌ c s) String.[] = false
text_le (String.◌∷◌ c s) (String.◌∷◌ d t) =
    if ltb (code c) (code d) then true else if ltb (code d) (code c) then false else text_le s t

-- `sort.Strings` on the keys of a map, which are distinct; each key brings its value along.
unfoldable pub insert_entry : String × String → List (String × String) → List (String × String)
unfolding text_le
insert_entry entry [] = entry ∷ []
insert_entry (k, v) ((j, w) ∷ entries) =
    if text_le k j then (k, v) ∷ (j, w) ∷ entries else (j, w) ∷ insert_entry (k, v) entries

unfoldable pub sort_entries : List (String × String) → List (String × String)
unfolding insert_entry
sort_entries [] = []
sort_entries (entry ∷ entries) = insert_entry entry (sort_entries entries)

join : List String → String
join [] = ""
join (s ∷ []) = s
join (s ∷ t ∷ rest) = String.◌++◌ s (String.◌++◌ "," (join (t ∷ rest)))

entry_text : List (String × String) → List String
unfolding canonical_string
entry_text [] = []
entry_text ((k, v) ∷ entries) =
    String.◌++◌ (canonical_string k) (String.◌++◌ ":" v) ∷ entry_text entries

-- The text of an object whose members have their texts.
unfoldable pub object_text : List (String × String) → String
unfolding sort_entries join entry_text
object_text entries = String.◌++◌ "{" (String.◌++◌ (join (entry_text (sort_entries entries))) "}")

array_text : List String → String
unfolding join
array_text texts = String.◌++◌ "[" (String.◌++◌ (join texts) "]")

unfoldable mutual
  unfolding canonical_string canonical_number object_text array_text

  pub canonical : Json → Option String
  canonical null = none
  canonical (boolean b) = some (if b then "true" else "false")
  canonical (number n) = canonical_number n
  canonical (fraction s) = none
  canonical (text s) = some (canonical_string s)
  canonical (array xs) = do texts ← canonical_items xs; some (array_text texts)
  canonical (object ms) = do entries ← canonical_members ms; some (object_text entries)

  pub canonical_items : Items → Option (List String)
  canonical_items no_items = some []
  canonical_items (item x xs) = do
    first ← canonical x
    rest ← canonical_items xs
    some (first ∷ rest)

  pub canonical_members : Members → Option (List (String × String))
  canonical_members no_members = some []
  canonical_members (member k v ms) = do
    first ← canonical v
    rest ← canonical_members ms
    some ((k, first) ∷ rest)
