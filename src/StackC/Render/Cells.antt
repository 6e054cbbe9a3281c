-- ===== src/StackC/Render/Cells.antt =====
-- The cells that the data section reserves.
use mes_replacement.Prelude.{
  ℕ, zero, suc, ◌+◌, ◌<◌, ◌^◌, ◌%◌, ◌≡◌, refl, [], ◌∷◌, inl, inr, arith, ◌==◌, if◌then◌else◌,
  Bool-cases, Bytes,
}
use mes_replacement.StackC.Render.{null_cells, cell_count}

-- How often a byte stands in a text.
abbrev pub occurrences : ℕ → Bytes → ℕ
occurrences b [] = 0
occurrences b (c ∷ s) = if c == b then suc (occurrences b s) else occurrences b s

null_cells-from : (j n : ℕ) → occurrences b'N' (null_cells j n) ≡ n
unfolding null_cells
null_cells-from j zero = refl
null_cells-from j (suc n) = elim (Bool-cases (j % 8 == 0)) [
  | inl e ↦ rw e (omega (arith, null_cells-from (j + 1) n))
  | inr e ↦ rw e (omega (arith, null_cells-from (j + 1) n))
]

-- A variable of `size` cells, with `size` a positive `int`, is defined by `size` words `NULL`.
null_cells-count :
    (size : ℕ) → size < 2 ^ 31 → occurrences b'N' (null_cells 0 (cell_count size)) ≡ size
null_cells-count size h =
    let e : cell_count size ≡ size = ground arith in rw e (null_cells-from 0 size)
