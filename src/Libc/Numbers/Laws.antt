-- ===== src/Libc/Numbers/Laws.antt =====
-- Laws of the digits, written and read back.
use mes_replacement.Prelude.{
  ℕ, zero, suc, ◌+◌, ◌*◌, ◌/◌, ◌%◌, ◌^◌, ◌≤◌, ◌<◌, ◌≡◌, refl, ap, ◌∙◌, inl, inr, [], ◌∷◌, ◌++◌,
  none, some, arith, ◌==◌, Bool-cases, length, Bytes,
}
use native.Mathlib.Numerals.{unary_clauses}
use mes_replacement.Libc.Numbers.{
  digit_value, strtoul_from, strtoul, digits_from, all_digits, format_u,
}

digit_value-decimal : (d : ℕ) → d < 10 → digit_value 10 (b'0' + d) ≡ some d
unfolding digit_value
digit_value-decimal d h = ground arith

digit_value-nul : digit_value 10 0 ≡ none
unfolding digit_value
digit_value-nul = refl

strtoul_from-digit :
    (base result c v : ℕ) (nptr : Bytes)
    → digit_value base c ≡ some v
    → strtoul_from base result (c ∷ nptr) ≡ strtoul_from base ((base * result + v) % 2 ^ 64) nptr
unfolding strtoul_from
strtoul_from-digit base result c v nptr e = rw (strtoul_from, e) refl

strtoul_from-stop :
    (base result c : ℕ) (nptr : Bytes)
    → digit_value base c ≡ none
    → strtoul_from base result (c ∷ nptr) ≡ some (result, c ∷ nptr)
unfolding strtoul_from
strtoul_from-stop base result c nptr e = rw (strtoul_from, e) refl

-- The loop reads the digits of `v` as `v`, and goes on behind them.
strtoul_from-digits :
    (fuel v : ℕ) (buffer tail : Bytes)
    → v < fuel
    → v < 2 ^ 64
    → strtoul_from 10 0 (digits_from fuel v buffer ++ tail) ≡ strtoul_from 10 v (buffer ++ tail)
unfolding digits_from
strtoul_from-digits zero v buffer tail h k = absurd (omega arith)
strtoul_from-digits (suc fuel) v buffer tail h k = elim (Bool-cases (v == 0)) [
  | inl e ↦ let z : v ≡ 0 = ground arith in rw (e, z) refl
  | inr e ↦
      let less : v / 10 < fuel = ground arith in
      let d = digit_value-decimal (v % 10) (omega arith) in
      let whole : (10 * (v / 10) + v % 10) % 2 ^ 64 ≡ v = omega arith in
      rw e (
        strtoul_from-digits fuel (v / 10) ((b'0' + v % 10) ∷ buffer) tail less (omega arith)
        ∙ strtoul_from-digit 10 (v / 10) (b'0' + v % 10) (v % 10) (buffer ++ tail) d
        ∙ ap (λ r. strtoul_from 10 r (buffer ++ tail)) whole)
]

strtoul_from-zero : (rest : Bytes) → strtoul_from 10 0 (b'0' ∷ 0 ∷ rest) ≡ some (0, 0 ∷ rest)
strtoul_from-zero rest =
    strtoul_from-digit 10 0 b'0' 0 (0 ∷ rest) (digit_value-decimal 0 (omega arith))
    ∙ strtoul_from-stop 10 0 0 rest digit_value-nul

all_digits-read :
    (v : ℕ) (tail : Bytes)
    → v < 2 ^ 64
    → strtoul_from 10 0 (all_digits v ++ tail) ≡ strtoul_from 10 v tail
unfolding all_digits
all_digits-read v tail h = strtoul_from-digits (suc v) v [] tail (omega arith) h

read_decimal :
    (v : ℕ) (rest : Bytes)
    → v < 2 ^ 64
    → strtoul_from 10 0 (format_u v ++ 0 ∷ rest) ≡ some (v, 0 ∷ rest)
unfolding format_u
read_decimal v rest h = elim (Bool-cases (v == 0)) [
  | inl e ↦ let z : v ≡ 0 = ground arith in rw (e, z) (strtoul_from-zero rest)
  | inr e ↦ rw e (all_digits-read v (0 ∷ rest) h ∙ strtoul_from-stop 10 v 0 rest digit_value-nul)
]

-- A number of 64 bits that `%u` writes is read back by `strtoul` in base 10, up to the NUL.
pub strtoul-format_u :
    (v : ℕ) (rest : Bytes) → v < 2 ^ 64 → strtoul (format_u v ++ 0 ∷ rest) 10 ≡ some (v, 0 ∷ rest)
unfolding strtoul
strtoul-format_u v rest h = read_decimal v rest h

digits_from-length :
    (fuel k v : ℕ) (buffer : Bytes)
    → v < 10 ^ k
    → length (digits_from fuel v buffer) ≤ k + length buffer
unfolding digits_from
digits_from-length zero k v buffer h = omega arith
digits_from-length (suc fuel) zero v buffer h = let z : v ≡ 0 = omega arith in rw z (omega arith)
digits_from-length (suc fuel) (suc k) v buffer h = elim (Bool-cases (v == 0)) [
  | inl e ↦ rw e (omega arith)
  | inr e ↦
      let small : v < 10 ^ k * 10 = simp unary_clauses at h in
      rw e
        (omega (arith, digits_from-length fuel k (v / 10) ((b'0' + v % 10) ∷ buffer) (omega arith)))
]

length-all_digits : (k v : ℕ) → v < 10 ^ k → length (all_digits v) ≤ k
unfolding all_digits
length-all_digits k v h = omega (arith, digits_from-length (suc v) k v [] h)

-- The digits of a 64-bit number are at most 20, so they fit the 40 bytes of `buffer`.
pub length-format_u : (v : ℕ) → v < 2 ^ 64 → length (format_u v) ≤ 20
unfolding format_u
length-format_u v h = elim (Bool-cases (v == 0)) [
  | inl e ↦ rw e (omega arith)
  | inr e ↦ rw e (length-all_digits 20 v (omega arith))
]
