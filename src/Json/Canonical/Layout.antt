-- ===== src/Json/Canonical/Layout.antt =====
-- The canonical text of an object by RFC 8785, written out for members that are in order.
use Prim.Native.String
use autostream_contracts.Common.{
  String, false, ◌||◌, ◌≡◌, refl, Option, none, some, List, [], ◌∷◌, ltb, ℤ, if-branch, pos_part,
  neg_part, inl, inr,
}
use autostream_contracts.Json.{Json, number, object, Members, member, is_zero}
use autostream_contracts.Json.Decimal.{decimal_ℤ}
use autostream_contracts.Json.Canonical.{
  ◌>>=◌, canonical, canonical_members, canonical_number, object_text, max_safe_integer,
}

-- A member: its name in quotes, a colon and its value.
abbrev named : String → String → String
named name value = String.◌++◌ (String.◌++◌ "\"" (String.◌++◌ name "\"")) (String.◌++◌ ":" value)

abbrev listed : String → String → List (String × String) → String
listed name value [] = named name value
listed name value ((next, other) ∷ rest) =
    String.◌++◌ (named name value) (String.◌++◌ "," (listed next other rest))

abbrev inside : List (String × String) → String
inside [] = ""
inside ((name, value) ∷ rest) = listed name value rest

-- The members in the order that they are given, in braces.
abbrev pub laid_out : List (String × String) → String
laid_out entries = String.◌++◌ "{" (String.◌++◌ (inside entries) "}")

-- What a bound option goes on with.
pub bound {ℓ κ} :
    {A : Type ℓ} {B : Type κ} (found : Option A) (f : A → Option B) (b : B)
    → (found >>= f) ≡ some b
    → (a : A) × (found ≡ some a) × (f a ≡ some b)
bound none f b h = cc
bound (some a) f b h = (a, refl, h)

pub canonical-object :
    (ms : Members) (body : String)
    → canonical (object ms) ≡ some body
    → (entries : List (String × String)) × (canonical_members ms ≡ some entries)
      × (body ≡ object_text entries)
unfolding canonical
canonical-object ms body h =
    let (entries, found, e) = bound (canonical_members ms) _ body h in (entries, found, cc)

pub canonical_members-member :
    (name : String) (value : Json) (ms : Members) (entries : List (String × String))
    → canonical_members (member name value ms) ≡ some entries
    → (first : String) × (rest : List (String × String)) × (canonical value ≡ some first)
      × (canonical_members ms ≡ some rest)
      × (entries ≡ (name, first) ∷ rest)
unfolding canonical
canonical_members-member name value ms entries h =
    let (first, found, after) = bound (canonical value) _ entries h in
    let (rest, others, e) = bound (canonical_members ms) _ entries after in
    (first, rest, found, others, cc)

-- An integer other than 0 has its decimal numeral.
pub canonical-number :
    (n : ℤ) (body : String)
    → is_zero n ≡ false
    → canonical (number n) ≡ some body
    → body ≡ decimal_ℤ n
unfolding canonical canonical_number
canonical-number n body nonzero h =
    elim (if-branch (ltb max_safe_integer (pos_part n) || ltb max_safe_integer (neg_part n)) _ _
      (some body) h) [
        | inl (large, f) ↦ cc
        | inr (small, f) ↦ elim (if-branch (is_zero n) _ _ (some body) f) [
          | inl (e, g) ↦ cc
          | inr (e, g) ↦ cc
        ]
      ]
