-- ===== src/Json/Decimal/Read.antt =====
-- A reader of numerals, which stops at the first character that is no digit.
use Prim.Native.Char.{Char, code}
use Prim.Native.String
use text.Mathlib.TextLemmas.{nil-append, cons-append}
use autostream_contracts.Common.{
  ℕ, zero, suc, ◌+◌, ◌-◌, ◌*◌, ◌/◌, ◌%◌, ◌<◌, String, ◌≡◌, refl, ap, ◌∙◌, arith, if◌then◌else◌,
  true, false, all_below, all_below_sound,
}
use autostream_contracts.Text.{is_digit, all_characters}
use autostream_contracts.Json.Decimal.{
  decimal_digit, decimal_from, decimal, value_from, value-decimal,
}

pub read_number : ℕ → String → ℕ × String
read_number acc String.[] = (acc, "")
read_number acc (String.◌∷◌ c s) =
    let more = read_number (acc * 10 + (code c - b'0')) s in
    if is_digit (code c) then more else (acc, String.◌∷◌ c s)

read_number-append :
    (s : String) (acc : ℕ) (c : Char) (rest : String)
    → all_characters is_digit s ≡ true
    → is_digit (code c) ≡ false
    → read_number acc (String.◌++◌ s (String.◌∷◌ c rest)) ≡ (value_from acc s, String.◌∷◌ c rest)
unfolding read_number value_from all_characters
read_number-append String.[] acc c rest h stop = rw (nil-append (String.◌∷◌ c rest)) (rw stop refl)
read_number-append (String.◌∷◌ d s) acc c rest h stop =
    let here : is_digit (code d) ≡ true = ground arith in
    let later : all_characters is_digit s ≡ true = ground arith in
    rw (cons-append d s (String.◌∷◌ c rest))
      (rw here (read_number-append s (acc * 10 + (code d - b'0')) c rest later stop))

digit_table : all_below 10 (λ n. is_digit (code (decimal_digit n))) ≡ true
unfolding all_below is_digit decimal_digit
digit_table = refl

decimal_digit-is_digit : (n : ℕ) → n < 10 → is_digit (code (decimal_digit n)) ≡ true
decimal_digit-is_digit n h = all_below_sound 10 n _ digit_table h

decimal_from-is_digit :
    (fuel n : ℕ) (tail : String)
    → all_characters is_digit tail ≡ true
    → all_characters is_digit (decimal_from fuel n tail) ≡ true
unfolding decimal_from all_characters
decimal_from-is_digit zero n tail h = rw (decimal_digit-is_digit (n % 10) (omega arith)) h
decimal_from-is_digit (suc fuel) n tail h =
    let digit = decimal_digit-is_digit (n % 10) (omega arith) in
    let extended : all_characters is_digit (String.◌∷◌ (decimal_digit (n % 10)) tail) ≡ true =
      rw digit h in
    ground (
      arith,
      decimal_from-is_digit fuel (n / 10) (String.◌∷◌ (decimal_digit (n % 10)) tail) extended,
    )

-- The reader takes a numeral off the text, and no more, where no digit follows.
pub read_number-decimal :
    (n : ℕ) (c : Char) (rest : String)
    → is_digit (code c) ≡ false
    → read_number 0 (String.◌++◌ (decimal n) (String.◌∷◌ c rest)) ≡ (n, String.◌∷◌ c rest)
unfolding decimal all_characters
read_number-decimal n c rest stop =
    read_number-append (decimal n) 0 c rest (decimal_from-is_digit n n "" refl) stop
    ∙ ap (λ (v : ℕ). (v, String.◌∷◌ c rest)) (value-decimal n)
