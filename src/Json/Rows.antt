-- ===== src/Json/Rows.antt =====
-- The members of a structure's encoding, as rows by which they are read back.
use autostream_contracts.Common.{
  String, Bool, true, false, ◌≡◌, refl, ap, Option, none, some, List, [], ◌∷◌, ℤ, pos, negsuc, ◌==◌,
  String_eq, ℕ_eq, if◌then◌else◌, Bool-cases, inl, inr, eq_iff, tests,
}
use autostream_contracts.Json.{
  Json, number, boolean, text, object, Members, no_members, members, member?, as_text, omit_text,
  omit_number, omit_nil, is_zero,
}

abbrev pub text_of : Option Json → String
text_of none = ""
text_of (some found) = as_text found

abbrev pub number_of : Option Json → ℤ
number_of (some (number n)) = n
number_of _ = pos 0

abbrev pub boolean_of : Option Json → Bool
boolean_of (some (boolean b)) = b
boolean_of _ = false

abbrev pub members_of : Json → Members
members_of (object ms) = ms
members_of _ = no_members

-- A row: a member's name, and its value if it is written.
abbrev pub field : String × Option Json → Option (String × Json)
field (name, none) = none
field (name, some value) = some (name, value)

abbrev pub fields : List (String × Option Json) → List (Option (String × Json))
fields [] = []
fields (row ∷ rows) = field row ∷ fields rows

abbrev pub or_else : Option Json → Option Json → Option Json
or_else none other = other
or_else (some value) other = some value

-- The value of the first row of that name that has one.
abbrev pub find : String → List (String × Option Json) → Option Json
find key [] = none
find key ((name, value) ∷ rows) =
    if name == key then or_else value (find key rows) else find key rows

pub member?-fields :
    (key : String) (rows : List (String × Option Json))
    → member? key (members (fields rows)) ≡ find key rows
unfolding member?
member?-fields key [] = refl
member?-fields key ((name, none) ∷ rows) = elim (Bool-cases (name == key)) [
  | inl e ↦ rw e (member?-fields key rows)
  | inr e ↦ rw e (member?-fields key rows)
]
member?-fields key ((name, some value) ∷ rows) = elim (Bool-cases (name == key)) [
  | inl e ↦ rw e refl
  | inr e ↦ rw e (member?-fields key rows)
]

abbrev pub text? : String → Option Json
text? s = if s == "" then none else some (text s)

abbrev pub number? : ℤ → Option Json
number? n = if is_zero n then none else some (number n)

-- A pointer that `omitempty` leaves out, in its encoding.
abbrev pub nil? : {A : Type 0} → (A → Json) → Option A → Option Json
nil? encode none = none
nil? encode (some a) = some (encode a)

pub omit_text-field : (name s : String) → omit_text name s ≡ field (name, text? s)
omit_text-field name s = elim (Bool-cases (s == "")) [ inl e ↦ rw e refl | inr e ↦ rw e refl ]

pub omit_number-field : (name : String) (n : ℤ) → omit_number name n ≡ field (name, number? n)
omit_number-field name n = elim (Bool-cases (is_zero n)) [ inl e ↦ rw e refl | inr e ↦ rw e refl ]

pub text_of-text? : (s : String) → text_of (or_else (text? s) none) ≡ s
text_of-text? s = elim (Bool-cases (s == "")) [
  | inl e ↦ rw ((eq_iff s "").0 e) refl
  | inr e ↦ rw e refl
]

pub number_of-number? : (n : ℤ) → number_of (or_else (number? n) none) ≡ n
number_of-number? n = elim (Bool-cases (is_zero n)) [
  | inl e ↦ rw (zero_of n e) refl
  | inr e ↦ rw e refl
]
  where
    zero_of : (n : ℤ) → is_zero n ≡ true → n ≡ pos 0
    zero_of (pos m) e = grind (tests, e)
    zero_of (negsuc m) e = cc

pub omit_nil-field :
    {A : Type 0} (name : String) (encode : A → Json) (found : Option A)
    → omit_nil name encode found ≡ field (name, nil? encode found)
omit_nil-field name encode none = refl
omit_nil-field name encode (some a) = refl

-- An optional value, read back by a reader of it.
abbrev pub nil_of : {A : Type 0} → (Members → A) → Option Json → Option A
nil_of read none = none
nil_of read (some document) = some (read (members_of document))

pub nil_of-nil? :
    {A : Type 0} (encode : A → Json) (read : Members → A)
    → ((a : A) → read (members_of (encode a)) ≡ a)
    → (found : Option A) → nil_of read (or_else (nil? encode found) none) ≡ found
nil_of-nil? encode read back none = refl
nil_of-nil? encode read back (some a) = ap some (back a)
