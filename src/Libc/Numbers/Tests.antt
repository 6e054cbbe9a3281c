-- ===== src/Libc/Numbers/Tests.antt =====
-- Runs of `strtoul`, `strtol` and the formats.
use mes_replacement.Prelude.{◌≡◌, ◌≤◌, ◌-◌, ◌^◌, refl, [], ◌∷◌, ◌++◌, some, arith, codes, length}
use mes_replacement.Libc.Numbers.{
  digit_value, strtoul_from, detect_base, strtoul, strtol, digits_from, all_digits, format_u,
  format_d,
}
use mes_replacement.Libc.Numbers.Laws.{strtoul-format_u, length-format_u}

runs :
    (strtoul (codes "0x1f" ++ 0 ∷ []) 0 ≡ some (31, 0 ∷ []))
    × (strtoul (codes "017;" ++ 0 ∷ []) 0 ≡ some (15, b';' ∷ 0 ∷ []))
    × (strtol (codes "-7" ++ 0 ∷ []) 10 ≡ some (2 ^ 64 - 7, 0 ∷ []))
    × (format_d (2 ^ 64 - 42) ≡ codes "-42")
unfolding strtoul detect_base strtoul_from digit_value strtol format_d all_digits digits_from
runs = (refl, refl, refl, refl)

strtoul-format_u_example : strtoul (format_u 1906 ++ 0 ∷ []) 10 ≡ some (1906, 0 ∷ [])
strtoul-format_u_example = strtoul-format_u 1906 [] (omega arith)

length-format_u_example : length (format_u 1906) ≤ 20
length-format_u_example = length-format_u 1906 (omega arith)
