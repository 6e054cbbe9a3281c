-- ===== src/Libc/Numbers.antt =====
-- `strtoul` and its kin, and the digits that `__sys_printf` writes, of src/stdlib.c. `none` is a read
-- behind the end of the object; a `size_t` and an `ssize_t` have 64 bits.
pub mod Laws
mod Tests
use mes_replacement.Prelude.{
  ℕ, zero, suc, ◌+◌, ◌-◌, ◌*◌, ◌/◌, ◌%◌, ◌^◌, Bool, ◌&&◌, ◌||◌, List, [], ◌∷◌, Option, none, some,
  ltb, leb, ◌==◌, if◌then◌else◌, Bytes, codes,
}
use mathlib.Core.Option.{map}

-- `lo <= *nptr && *nptr < hi`, of a signed character.
abbrev pub between : ℕ → ℕ → ℕ → Bool
between lo hi c = leb lo c && (ltb c 128 && ltb c hi)

-- The value of a digit of the base.
unfoldable pub digit_value : ℕ → ℕ → Option ℕ
digit_value base c =
    if between b'0' (b'0' + (if ltb base 10 then base else 10)) c
    then some (c - b'0')
    else if between b'a' (b'a' + base - 10) c
    then some (c - b'a' + 10)
    else if between b'A' (b'A' + base - 10) c
    then some (c - b'A' + 10)
    else none

-- The loop: the number, and where it ends.
unfoldable pub strtoul_from : ℕ → ℕ → Bytes → Option (ℕ × Bytes)
strtoul_from base result [] = none
strtoul_from base result (c ∷ nptr) = elim (digit_value base c) [
  | none ↦ some (result, c ∷ nptr)
  | some v ↦ strtoul_from base ((base * result + v) % 2 ^ 64) nptr
]

-- For the base 0: the base that the first characters tell.
unfoldable pub detect_base : Bytes → Option (ℕ × Bytes)
detect_base [] = none
detect_base (c ∷ []) = if c == b'0' then none else some (10, c ∷ [])
detect_base (c ∷ d ∷ nptr) =
    if c == b'0'
    then (if d == b'x' || d == b'X' then some (16, nptr) else some (8, d ∷ nptr))
    else some (10, c ∷ d ∷ nptr)

unfoldable pub strtoul : Bytes → ℕ → Option (ℕ × Bytes)
unfolding detect_base
strtoul nptr base =
    if base == 0
    then elim (detect_base nptr) [
      | none ↦ none
      | some (found, digits) ↦ strtoul_from found 0 digits
    ]
    else strtoul_from base 0 nptr

abbrev pub negated : ℕ × Bytes → ℕ × Bytes
negated (v, endptr) = ((2 ^ 64 - v) % 2 ^ 64, endptr)

unfoldable pub strtol : Bytes → ℕ → Option (ℕ × Bytes)
strtol [] base = none
strtol (c ∷ nptr) base =
    if c == b'-' then map negated (strtoul nptr base) else strtoul (c ∷ nptr) base

-- `for (; v > 0; v = v / 10) buffer[--l] = '0' + v % 10`; `buffer` is what stands from `l` on.
unfoldable pub digits_from : ℕ → ℕ → Bytes → Bytes
digits_from zero v buffer = buffer
digits_from (suc fuel) v buffer =
    let rest = digits_from fuel (v / 10) ((b'0' + v % 10) ∷ buffer) in
    if v == 0 then buffer else rest

unfoldable pub all_digits : ℕ → Bytes
unfolding digits_from
all_digits v = digits_from (suc v) v []

-- `%u`
unfoldable pub format_u : ℕ → Bytes
format_u v = if v == 0 then codes "0" else all_digits v

-- `%d` with no width, of the 64 bits of an `ssize_t`.
unfoldable pub format_d : ℕ → Bytes
format_d v =
    let size = 2 ^ 64 - v in
    if v == 0 then codes "0" else if ltb v (2 ^ 63) then all_digits v else b'-' ∷ all_digits size
