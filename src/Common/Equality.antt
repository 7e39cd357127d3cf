-- ===== src/Common/Equality.antt =====
-- Go's `==`: a test for each type of values, with what it decides.
use Prim.Native.Nat.{ℕ}
use Prim.Native.String.{String}
use mathlib.Core.Path.{◌≡◌, refl}
use mathlib.Core.Logic.{◌↔◌}
use mathlib.Core.Bool.{◌&&◌, Bool, false, true}
use mathlib.Core.Option.{Option, none, some}
use mathlib.Core.List.{List, [], ◌∷◌}
use native.Mathlib.Omega.{arith}
use text.Mathlib.Text.{◌==◌ as str_eq}
use text.Mathlib.TextEquality.{eq_iff}
use autostream_contracts.Common.Tests.{nat_beq, nat_beq_iff}
use autostream_contracts.Common.Int.{ℤ, beq_ℤ, beq_ℤ_iff, leb_ℤ_iff, ltb_ℤ_iff}

pub record Eq {ℓ} (Value : Type ℓ) : Type ℓ where
  pub beq : Value → Value → Bool
  pub beq_iff : (x y : Value) → (beq x y ≡ true) ↔ (x ≡ y)

instance abbrev pub String_eq : Eq String
String_eq = record { beq = str_eq; beq_iff = eq_iff }

instance abbrev pub ℤ_eq : Eq ℤ
ℤ_eq = record { beq = beq_ℤ; beq_iff = beq_ℤ_iff }

instance abbrev pub ℕ_eq : Eq ℕ
ℕ_eq = record { beq = nat_beq; beq_iff = nat_beq_iff }

infix 50 ◌==◌
abbrev pub ◌==◌ {ℓ} : {Value : Type ℓ} ⦃test : Eq Value⦄ → Value → Value → Bool
◌==◌ ⦃test⦄ x y = test.beq x y

abbrev pub bool_beq : Bool → Bool → Bool
bool_beq true b = b
bool_beq false true = false
bool_beq false false = true

pub bool_beq_iff : (a b : Bool) → (bool_beq a b ≡ true) ↔ (a ≡ b)
bool_beq_iff a b = ground arith

instance abbrev pub Bool_eq : Eq Bool
Bool_eq = record { beq = bool_beq; beq_iff = bool_beq_iff }

module _ {ℓ} {A : Type ℓ} ⦃e : Eq A⦄ where
  abbrev pub option_beq : Option A → Option A → Bool
  option_beq none none = true
  option_beq none (some b) = false
  option_beq (some a) none = false
  option_beq (some a) (some b) = a == b

  pub option_beq_iff : (a b : Option A) → (option_beq a b ≡ true) ↔ (a ≡ b)
  option_beq_iff none none = ground arith
  option_beq_iff none (some b) = ground arith
  option_beq_iff (some a) none = ground arith
  option_beq_iff (some a) (some b) = ground (arith, e.beq_iff a b)

  abbrev pub list_beq : List A → List A → Bool
  list_beq [] [] = true
  list_beq [] (b ∷ bs) = false
  list_beq (a ∷ l) [] = false
  list_beq (a ∷ l) (b ∷ m) = a == b && list_beq l m

  pub list_beq_iff : (l m : List A) → (list_beq l m ≡ true) ↔ (l ≡ m)
  list_beq_iff [] [] = ground arith
  list_beq_iff [] (b ∷ m) = ground arith
  list_beq_iff (a ∷ l) [] = ground arith
  list_beq_iff (a ∷ l) (b ∷ m) = ground (arith, e.beq_iff a b, list_beq_iff l m)

instance abbrev pub Option_eq {ℓ} : {A : Type ℓ} ⦃e : Eq A⦄ → Eq (Option A)
Option_eq = record { beq = option_beq; beq_iff = option_beq_iff }

instance abbrev pub List_eq {ℓ} : {A : Type ℓ} ⦃e : Eq A⦄ → Eq (List A)
List_eq = record { beq = list_beq; beq_iff = list_beq_iff }

-- Go's test of a pointer against nil.
abbrev pub is_nil {ℓ} : {A : Type ℓ} → Option A → Bool
is_nil none = true
is_nil (some a) = false

pub none_of_nil {ℓ} : {A : Type ℓ} (o : Option A) → is_nil o ≡ true → o ≡ none
none_of_nil none h = refl
none_of_nil (some a) h = cc

-- What the tests of the validators say, for `grind`.
pub ruleset tests = (arith, eq_iff, beq_ℤ_iff, leb_ℤ_iff, ltb_ℤ_iff)
