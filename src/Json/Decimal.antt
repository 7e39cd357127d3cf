-- ===== src/Json/Decimal.antt =====
-- Decimal numerals, as `strconv` and `fmt` print them, with no fuel left to chance: `decimal` gives
-- a number as many rounds as the number itself, and each round divides by ten.
pub mod Read
use Prim.Native.Char.{Char, code}
use Prim.Native.String
use Prim.Native.String.{char_at}
use autostream_contracts.Common.{
  ℕ, zero, suc, ◌+◌, ◌-◌, ◌*◌, ◌/◌, ◌%◌, ◌<◌, ◌≤◌, String, ◌≡◌, refl, arith, ltb, ltb→lt, nat_beq,
  nat_beq_iff, all_below, all_below_sound, ap, ◌∙◌, if◌then◌else◌, ℤ, pos, negsuc, true, Bool-cases,
  inl, inr,
}

unfoldable pub decimal_digit : ℕ → Char
decimal_digit n = char_at "0123456789" n

-- The digits of `n` before `tail`.
unfoldable pub decimal_from : ℕ → ℕ → String → String
unfolding decimal_digit
decimal_from zero n tail = String.◌∷◌ (decimal_digit (n % 10)) tail
decimal_from (suc fuel) n tail =
    let more = decimal_from fuel (n / 10) (String.◌∷◌ (decimal_digit (n % 10)) tail) in
    if ltb n 10 then String.◌∷◌ (decimal_digit (n % 10)) tail else more

unfoldable pub decimal : ℕ → String
unfolding decimal_from
decimal n = decimal_from n n ""

unfoldable pub decimal_ℤ : ℤ → String
unfolding decimal
decimal_ℤ (pos n) = decimal n
decimal_ℤ (negsuc n) = String.◌++◌ "-" (decimal (suc n))

-- The value of a decimal text, for the round trip.
pub value_from : ℕ → String → ℕ
value_from acc String.[] = acc
value_from acc (String.◌∷◌ c s) = value_from (acc * 10 + (code c - b'0')) s

digit_table : all_below 10 (λ d. nat_beq (code (decimal_digit d) - b'0') d) ≡ true
unfolding all_below decimal_digit
digit_table = refl

code-decimal_digit : (d : ℕ) → d < 10 → code (decimal_digit d) - b'0' ≡ d
code-decimal_digit d h = (nat_beq_iff _ d).0 (all_below_sound 10 d _ digit_table h)

first_digit : (n : ℕ) → n < 10 → 0 * 10 + (code (decimal_digit (n % 10)) - b'0') ≡ n
first_digit n h = omega (arith, code-decimal_digit (n % 10) (omega arith))

next_digit : (n : ℕ) → n / 10 * 10 + (code (decimal_digit (n % 10)) - b'0') ≡ n
next_digit n = omega (arith, code-decimal_digit (n % 10) (omega arith))

value-decimal_from :
    (fuel n : ℕ) (tail : String)
    → n ≤ fuel
    → value_from 0 (decimal_from fuel n tail) ≡ value_from n tail
unfolding value_from decimal_from
value-decimal_from zero n tail h = ap (λ (a : ℕ). value_from a tail) (first_digit n (omega arith))
value-decimal_from (suc fuel) n tail h = elim (Bool-cases (ltb n 10)) [
  | inl small ↦ rw small (ap (λ (a : ℕ). value_from a tail) (first_digit n (ltb→lt n 10 small)))
  | inr large ↦
      let big : 10 ≤ n = ground arith in
      rw large (
        value-decimal_from fuel (n / 10) (String.◌∷◌ (decimal_digit (n % 10)) tail) (omega arith)
        ∙ ap (λ (a : ℕ). value_from a tail) (next_digit n))
]

-- The numeral of a number denotes the number.
pub value-decimal : (n : ℕ) → value_from 0 (decimal n) ≡ n
unfolding decimal value_from
value-decimal n = value-decimal_from n n "" (omega arith)
