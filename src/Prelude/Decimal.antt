-- ===== src/Prelude/Decimal.antt =====
-- Decimal text: what `printf` writes for `%u` and `%d` of a 32-bit argument.
use Prim.Native.Nat.{ℕ, zero, suc, ◌+◌, ◌-◌, ◌/◌, ◌%◌, ◌^◌}
use mathlib.Core.List.{[], ◌∷◌, ◌++◌}
use mes_replacement.Prelude.Tests.{ltb, if◌then◌else◌}
use mes_replacement.Prelude.Text.{Bytes}

-- The digits of `n`, the highest first; one unit of fuel for each digit.
unfoldable pub decimal_on : ℕ → ℕ → Bytes
decimal_on zero n = []
decimal_on (suc fuel) n =
    let higher = decimal_on fuel (n / 10) in
    if ltb n 10 then (b'0' + n) ∷ [] else higher ++ (b'0' + n % 10) ∷ []

unfoldable pub decimal : ℕ → Bytes
unfolding decimal_on
decimal n = decimal_on (suc n) n

-- `%u`: the low 32 bits.
unfoldable pub print_u : ℕ → Bytes
unfolding decimal
print_u v = decimal (v % 2 ^ 32)

-- `%d`: the low 32 bits, read as a signed number.
unfoldable pub print_d : ℕ → Bytes
unfolding decimal
print_d v = let w = v % 2 ^ 32 in if ltb w (2 ^ 31) then decimal w else b'-' ∷ decimal (2 ^ 32 - w)
