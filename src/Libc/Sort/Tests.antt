-- ===== src/Libc/Sort/Tests.antt =====
-- Sorting three numbers.
use mes_replacement.Prelude.{
  ℕ, suc, ◌≡◌, refl, Bool, true, false, List, [], ◌∷◌, some, ltb, arith, codes,
}
use mes_replacement.Libc.Sort.{bubble, pass, qsort, swap_bytes}
use mes_replacement.Libc.Sort.Laws.{inversions, Sorts, qsort-Sorts}

abbrev above : ℕ → ℕ → Bool
above a b = ltb b a

above-asym : (a b : ℕ) → above a b ≡ true → above b a ≡ false
above-asym a b h = ground arith

runs :
    (qsort above 3 (3 ∷ 1 ∷ 2 ∷ []) ≡ some (1 ∷ 2 ∷ 3 ∷ []))
    × (swap_bytes 9 (codes "abcdefghi") (codes "123456789")
        ≡ (codes "123456789", codes "abcdefghi"))
unfolding qsort pass bubble swap_bytes
runs = (refl, refl)

qsort-Sorts_example :
    (ys : List ℕ) × (qsort above (suc (inversions above (3 ∷ 1 ∷ 2 ∷ []))) (3 ∷ 1 ∷ 2 ∷ [])
      ≡ some ys)
    × Sorts above (3 ∷ 1 ∷ 2 ∷ []) ys
qsort-Sorts_example = qsort-Sorts above above-asym (3 ∷ 1 ∷ 2 ∷ [])
