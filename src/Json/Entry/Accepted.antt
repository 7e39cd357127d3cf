-- ===== src/Json/Entry/Accepted.antt =====
-- What an entry point has accepted, and the members that a test of a raw document requires.
use autostream_contracts.Common.{
  String, Bool, true, false, ◌≡◌, refl, ap, not, Option, none, some, List, [], ◌∷◌, All, Check,
  pass, ContractError, err, inl, inr, if-branch, is_nil, arith, Option-cases,
}
use autostream_contracts.Json.{
  Json, null, boolean, number, fraction, text, array, object, Members, member?, has_updater_field,
  require_updater_fields,
}
use autostream_contracts.Json.Strict.{decode_strict}
use autostream_contracts.Json.Strict.Clean.{Within, Clean, decode_strict-iff-Clean}
use autostream_contracts.Json.Entry.{is_object, required_value, checked, entry}

-- The object has a value for the key.
abbrev pub Has : Members → String → Type 0
Has ms key = (value : Json) × (member? key ms ≡ some value)

pub has_updater_field-Has :
    (ms : Members) (key : String) → has_updater_field ms key ≡ true → Has ms key
unfolding has_updater_field
has_updater_field-Has ms key h = elim (Option-cases (member? key ms)) [
  | inl e ↦ absurd (ground (arith, ap (λ (o : Option Json). not (is_nil o)) e, h))
  | inr found ↦ found
]

pub require_updater_fields-Has :
    (ms : Members) (fields : List String)
    → require_updater_fields ms fields ≡ true
    → All (Has ms) fields
unfolding require_updater_fields
require_updater_fields-Has ms [] h = tt
require_updater_fields-Has ms (f ∷ fs) h =
    elim (if-branch (has_updater_field ms f) (require_updater_fields ms fs) false true h) [
      | inl (here, later) ↦
          (has_updater_field-Has ms f here, require_updater_fields-Has ms fs later)
      | inr (here, later) ↦ cc
    ]

-- A payload reads as a clean document, which passes the test and decodes to an accepted value.
pub record Accepted {ℓ} {Value : Type ℓ} (read_json : String → Option Json)
    (decode : Json → Option Value) (test : Json → Bool) (validate : Value → Check)
    (payload : String) : Type ℓ where
  pub document : Json
  pub value : Value
  pub read : read_json payload ≡ some document
  pub decoded : decode document ≡ some value
  pub clean : (part : Json) → Within part document → Clean part
  pub tested : test document ≡ true
  pub accepted : validate value ≡ pass

module _ {ℓ} {Value : Type ℓ} (read_json : String → Option Json)
    (decode : Json → Option Value) where
  checked-parts :
      (test : Json → Bool) (failure : ContractError) (validate : Value → Check) (payload : String)
      (found : Option (Value × Json))
      → decode_strict read_json decode payload ≡ found
      → checked test failure validate found ≡ pass
      → Accepted read_json decode test validate payload
  checked-parts test failure validate payload none d e = cc
  checked-parts test failure validate payload (some (value, document)) d e =
      let (read, decoded, clean) =
        (decode_strict-iff-Clean read_json decode payload value document).0 d in
      elim (if-branch (test document) (validate value) (err failure) pass e) [
        | inl (tested, accepted) ↦ record {
          document = document;
          value = value;
          read = read;
          decoded = decoded;
          clean = clean;
          tested = tested;
          accepted = accepted;
        }
        | inr (tested, failed) ↦ cc
      ]

  pub entry-Accepted :
      (test : Json → Bool) (failure : ContractError) (validate : Value → Check) (payload : String)
      → entry read_json decode test failure validate payload ≡ pass
      → Accepted read_json decode test validate payload
  unfolding entry
  entry-Accepted test failure validate payload e =
      checked-parts test failure validate payload (decode_strict read_json decode payload) refl e

-- A test of an object that held, of the object; and of a required member, of its value.
pub is_object-parts :
    (test : Members → Bool) (document : Json)
    → is_object test document ≡ true
    → (ms : Members) × (document ≡ object ms) × (test ms ≡ true)
is_object-parts test (object ms) h = (ms, refl, h)
is_object-parts test null h = cc
is_object-parts test (boolean b) h = cc
is_object-parts test (number n) h = cc
is_object-parts test (fraction s) h = cc
is_object-parts test (text s) h = cc
is_object-parts test (array xs) h = cc

pub required_value-parts :
    (test : Members → Bool) (found : Option Json)
    → required_value (is_object test) found ≡ true
    → (ms : Members) × (found ≡ some (object ms)) × (test ms ≡ true)
required_value-parts test none h = cc
required_value-parts test (some document) h =
    let (ms, e, t) = is_object-parts test document h in (ms, ap some e, t)
