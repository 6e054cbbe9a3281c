-- ===== src/Libc/Strings.antt =====
-- The string functions of src/stdlib.c. A `char *` is the memory from there to the end of its
-- object; `none` is a read behind that end. An `ssize_t` is its 64 bits.
pub mod Laws
pub mod Search
mod Tests
use mathlib.Core.Option.{map}
use mes_replacement.Prelude.{
  ℕ, zero, suc, ◌+◌, ◌-◌, ◌%◌, ◌^◌, Bool, ◌||◌, not, List, [], ◌∷◌, ◌++◌, Option, none, some, ltb,
  ◌==◌, if◌then◌else◌, Bytes, Option-cases,
}

unfoldable pub strlen : Bytes → Option ℕ
strlen [] = none
strlen (c ∷ s) = let rest = strlen s in if c == 0 then some 0 else map suc rest

-- A signed character as a 64-bit number.
unfoldable pub char_value : ℕ → ℕ
char_value c = if ltb c 128 then c else 2 ^ 64 - 256 + c

-- `*p1 - *p2`
unfoldable pub difference : ℕ → ℕ → ℕ
unfolding char_value
difference a b = (char_value a + (2 ^ 64 - char_value b)) % 2 ^ 64

unfoldable pub memcmp : Bytes → Bytes → ℕ → Option ℕ
memcmp s1 s2 zero = some 0
memcmp [] s2 (suc n) = none
memcmp (a ∷ s1) [] (suc n) = none
memcmp (a ∷ s1) (b ∷ s2) (suc n) =
    let rest = memcmp s1 s2 n in if not (difference a b == 0) then some (difference a b) else rest

unfoldable pub strcmp : Bytes → Bytes → Option ℕ
strcmp [] s2 = none
strcmp (a ∷ s1) [] = none
strcmp (a ∷ s1) (b ∷ s2) =
    let rest = strcmp s1 s2 in
    if not (difference a b == 0) || a == 0 then some (difference a b) else rest

unfoldable pub strncmp : Bytes → Bytes → ℕ → Option ℕ
strncmp s1 s2 zero = some 0
strncmp [] s2 (suc n) = none
strncmp (a ∷ s1) [] (suc n) = none
strncmp (a ∷ s1) (b ∷ s2) (suc n) =
    let rest = strncmp s1 s2 n in
    if not (difference a b == 0) || a == 0 then some (difference a b) else rest

-- A pointer that is returned: NULL, or the memory from there.
pub data Pointer : Type 0 where
  null : Pointer
  at : Bytes → Pointer

unfoldable pub strchr : Bytes → ℕ → Option Pointer
strchr [] c = none
strchr (a ∷ s) c =
    let rest = strchr s c in
    if a == 0
    then some (if c == 0 then at (a ∷ s) else null)
    else if char_value a == c
    then some (at (a ∷ s))
    else rest

-- `result` is the last place so far.
unfoldable pub strrchr_from : Pointer → Bytes → ℕ → Option Pointer
strrchr_from result [] c = none
strrchr_from result (a ∷ s) c =
    let rest = strrchr_from (if char_value a == c then at (a ∷ s) else result) s c in
    if a == 0 then some result else rest

unfoldable pub strrchr : Bytes → ℕ → Option Pointer
unfolding strrchr_from
strrchr s c = strrchr_from null s c

unfoldable pub strstr_from : ℕ → Bytes → Bytes → Option Pointer
strstr_from n [] needle = none
strstr_from n (a ∷ haystack) needle =
    let rest = strstr_from n haystack needle in
    if a == 0 then some null else elim (strncmp (a ∷ haystack) needle n) [
      | none ↦ none
      | some result ↦ if result == 0 then some (at (a ∷ haystack)) else rest
    ]

unfoldable pub strstr : Bytes → Bytes → Option Pointer
unfolding strstr_from
strstr haystack needle = elim (strlen needle) [
  | none ↦ none
  | some n ↦ strstr_from n haystack needle
]

-- `strcpy` into an object of the bytes `dest`: what it holds afterwards.
unfoldable pub strcpy : Bytes → Bytes → Option Bytes
strcpy [] src = none
strcpy (d ∷ dest) [] = none
strcpy (d ∷ dest) (c ∷ src) =
    let rest = strcpy dest src in if c == 0 then some (0 ∷ dest) else map (λ r. c ∷ r) rest
