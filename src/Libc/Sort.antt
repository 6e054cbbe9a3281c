-- ===== src/Libc/Sort.antt =====
-- `qsort` of src/stdlib.c, a bubble sort. `compare(a, b) > 0` is the parameter `greater`; an element
-- is a value, and `swap_bytes` is the exchange of two of them in memory.
pub mod Laws
mod Tests
use mes_replacement.Prelude.{
  ℕ, zero, suc, ◌+◌, Bool, true, false, List, [], ◌∷◌, ◌++◌, Option, none, some, leb, if◌then◌else◌,
  length, take, drop, Bytes,
}

-- The bytes of two elements from index `j` on, `size` of each: a word of eight bytes where one
-- still fits, else one byte. The fuel is the number of bytes.
unfoldable pub swap_bytes : ℕ → Bytes → Bytes → Bytes × Bytes
swap_bytes zero a b = (a, b)
swap_bytes (suc fuel) [] b = ([], b)
swap_bytes (suc fuel) (c ∷ a) [] = (c ∷ a, [])
swap_bytes (suc fuel) (c ∷ a) (d ∷ b) =
    let words = swap_bytes fuel (drop 8 (c ∷ a)) (drop 8 (d ∷ b)) in
    let bytes = swap_bytes fuel a b in
    if leb 8 (length (c ∷ a))
    then (take 8 (d ∷ b) ++ words.0, take 8 (c ∷ a) ++ words.1)
    else (d ∷ bytes.0, c ∷ bytes.1)

module _ {ℓ} {A : Type ℓ} (greater : A → A → Bool) where
  -- The inner `for`: `x` is the element at `i`. With the array it gives the flag `go`.
  unfoldable pub bubble : A → List A → Bool × List A
  bubble x [] = (false, x ∷ [])
  bubble x (y ∷ rest) =
      let swapped = bubble x rest in
      let kept = bubble y rest in
      if greater x y then (true, y ∷ swapped.1) else (kept.0, x ∷ kept.1)

  unfoldable pub pass : List A → Bool × List A
  unfolding bubble
  pass [] = (false, [])
  pass (x ∷ rest) = bubble x rest

  -- The outer `for`: passes until one exchanges nothing. `none` means that the fuel ran out.
  unfoldable pub qsort : ℕ → List A → Option (List A)
  unfolding pass
  qsort zero xs = none
  qsort (suc fuel) xs =
      let again = qsort fuel (pass xs).1 in if (pass xs).0 then again else some (pass xs).1
