-- ===== src/TccCc/Tokens/Values.antt =====
-- `string_int_value`: the number that the text of a token stands for, as the 32 bits of an `int`.
use mes_replacement.Prelude.{
  and-left, and-right, ℕ, zero, suc, ◌+◌, ◌-◌, ◌*◌, ◌%◌, ◌^◌, ◌≡◌, refl, [], ◌∷◌, ◌++◌, Bool, true,
  false, arith, ◌==◌, if◌then◌else◌, is_digit, is_octal, Bytes,
}
use mes_replacement.TccCc.Chars.Strip.Pieces.{head_of}
use mes_replacement.TccCc.Chars.Include.{behind}
use mes_replacement.TccCc.Tokens.Escapes.{hex_value}
use mes_replacement.TccCc.Tokens.Words.{is_hex}
use mes_replacement.TccCc.Tokens.Scan.{all_of}
use mes_replacement.TccCc.Tokens.Lexemes.{
  Numeral, decimal_digits, octal_digits, hex_digits, Suffix, suffix, numeral_text, suffix_text,
  in_numeral,
}

-- A loop over digits: `value = base * value + digit` as long as the test passes.
unfoldable pub digits_loop : (ℕ → Bool) → (ℕ → ℕ) → ℕ → Bytes → ℕ → ℕ
digits_loop test digit base [] value = value
digits_loop test digit base (c ∷ cs) value =
    let rest = digits_loop test digit base cs ((base * value + digit c) % 2 ^ 32) in
    if test c then rest else value

abbrev pub digit_of : ℕ → ℕ
digit_of c = c - b'0'

unfoldable pub string_int_value : Bytes → ℕ
unfolding digits_loop
string_int_value s =
    if head_of s == b'0'
    then (if head_of (behind s) == b'x'
        then digits_loop is_hex hex_value 16 (behind (behind s)) 0
        else digits_loop is_octal digit_of 8 (behind s) 0)
    else digits_loop is_digit digit_of 10 s 0

-- The value of the digits behind a value, without a bound.
abbrev pub place_value : (ℕ → ℕ) → ℕ → Bytes → ℕ → ℕ
place_value digit base [] value = value
place_value digit base (c ∷ cs) value = place_value digit base cs (base * value + digit c)

abbrev pub numeral_value : Numeral → ℕ
numeral_value (decimal_digits c ds) = place_value digit_of 10 (c ∷ ds) 0
numeral_value (octal_digits ds) = place_value digit_of 8 ds 0
numeral_value (hex_digits ds) = place_value hex_value 16 ds 0

digits_loop-text :
    (test : ℕ → Bool) (digit : ℕ → ℕ) (base : ℕ)
    → ((v d : ℕ) → (base * (v % 2 ^ 32) + d) % 2 ^ 32 ≡ (base * v + d) % 2 ^ 32)
    → test 0 ≡ false
    → (ds rest : Bytes) (v : ℕ) → all_of test ds ≡ true
    → test (head_of rest) ≡ false
    → digits_loop test digit base (ds ++ rest) (v % 2 ^ 32) ≡ place_value digit base ds v % 2 ^ 32
unfolding digits_loop
digits_loop-text test digit base wraps zero_stops [] [] v a stop = refl
digits_loop-text test digit base wraps zero_stops [] (c ∷ rest) v a stop =
    rw (digits_loop, stop) refl
digits_loop-text test digit base wraps zero_stops (c ∷ ds) rest v a stop =
    let on = and-left (test c) (all_of test ds) a in
    rw (on, wraps v (digit c))
      (digits_loop-text test digit base wraps zero_stops ds rest (base * v + digit c)
        (and-right (test c) (all_of test ds) a) stop)

-- Behind the digits a suffix is not a digit of the base.
suffix-head :
    (test : ℕ → Bool) (x : Suffix)
    → test 0 ≡ false
    → test b'U' ≡ false
    → test b'L' ≡ false
    → test (head_of (suffix_text x)) ≡ false
suffix-head test (suffix true n) z u l = u
suffix-head test (suffix false zero) z u l = z
suffix-head test (suffix false (suc n)) z u l = l

-- The text of a number, with its suffix, has the value of its digits in their base, modulo 2 ^ 32.
pub string_int_value-numeral :
    (n : Numeral) (x : Suffix)
    → in_numeral n ≡ true
    → string_int_value (numeral_text n ++ suffix_text x) ≡ numeral_value n % 2 ^ 32
unfolding string_int_value is_digit is_octal is_hex
string_int_value-numeral (decimal_digits c ds) x v =
    let other : (c == b'0') ≡ false = ground (arith, v) in
    rw other (
      digits_loop-text is_digit digit_of 10 (λ v d. omega arith) refl (c ∷ ds) (suffix_text x) 0
        (ground (arith, v)) (suffix-head is_digit x refl refl refl))
string_int_value-numeral (octal_digits []) x v =
    let other : (head_of (suffix_text x) == b'x') ≡ false =
      suffix-head (λ c. c == b'x') x refl refl refl in
    rw other (
      digits_loop-text is_octal digit_of 8 (λ v d. omega arith) refl [] (suffix_text x) 0 refl
        (suffix-head is_octal x refl refl refl))
string_int_value-numeral (octal_digits (d ∷ ds)) x v =
    let other : (d == b'x') ≡ false = ground (arith, v) in
    rw other (
      digits_loop-text is_octal digit_of 8 (λ v d. omega arith) refl (d ∷ ds) (suffix_text x) 0 v
        (suffix-head is_octal x refl refl refl))
string_int_value-numeral (hex_digits ds) x v =
    digits_loop-text is_hex hex_value 16 (λ v d. omega arith) refl ds (suffix_text x) 0 v
      (suffix-head is_hex x refl refl refl)
