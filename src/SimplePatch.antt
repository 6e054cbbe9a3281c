-- ===== src/SimplePatch.antt =====
-- shpack/bootstrap/simple-patch-1.0/src/simple-patch.c. A `char *` with a size is a list of bytes;
-- a fault (a copy outside the buffer, or a `calloc` of a negative size) is the outcome `fault`, and
-- `exit(1)` is the outcome `die`.
pub mod Search
mod Copies
mod Sizes
pub mod Replace
pub mod Program
mod Tests
use mes_replacement.Prelude.{
  ℕ, ◌+◌, ◌-◌, ◌%◌, ◌^◌, Bool, true, false, List, [], ◌∷◌, ◌++◌, Option, none, some, leb, ltb, ◌==◌,
  if◌then◌else◌, length, take, drop, replicate, Bytes,
}

-- The `while` of `memsame`, from `check_offset` on.
same_from : Bytes → Bytes → Bool
same_from search [] = true
same_from [] (p ∷ pattern) = false
same_from (c ∷ search) (p ∷ pattern) = if c == p then same_from search pattern else false

unfoldable pub memsame : Bytes → Bytes → Bool
unfolding same_from
memsame search pattern =
    if ltb (length search) (length pattern) then false else same_from search pattern

-- `memcpy(buffer + at, src, n)` where `src` has its `n` bytes.
pub blit : Bytes → ℕ → Bytes → Option Bytes
blit buffer at src =
    if leb (at + length src) (length buffer)
    then some (take at buffer ++ (src ++ drop (at + length src) buffer))
    else none

pub data Outcome {ℓ} (A : Type ℓ) : Type ℓ where
  done : A → Outcome A
  die : Outcome A
  fault : Outcome A

abbrev pub checked : Option Bytes → (Bytes → Outcome Bytes) → Outcome Bytes
checked none k = fault
checked (some b) k = k b

-- The three copies that are made where the pattern is found, into the zeroed buffer of `main`.
pub splice : Bytes → Bytes → Bytes → ℕ → Bytes → Outcome Bytes
splice file before after prefix_len buffer = checked (blit buffer 0 (take prefix_len file)) λ b₁.
    checked (blit b₁ prefix_len after) λ b₂.
      checked
        (blit b₂ (prefix_len + length after) (
          take (length file - (prefix_len + length before))
            (drop (prefix_len + length before) file)))
        λ b₃. done b₃

-- The `while` of `patch_buffer_or_die`; `pos` is the rest of the file at `prefix_len`.
pub search_from : Bytes → Bytes → Bytes → ℕ → Bytes → Bytes → Outcome Bytes
search_from file before after prefix_len buffer [] = die
search_from file before after prefix_len buffer (c ∷ pos) =
    let found = splice file before after prefix_len buffer in
    let later = search_from file before after (prefix_len + 1) buffer pos in
    if memsame (c ∷ pos) before then found else later

pub patch_buffer_or_die : Bytes → Bytes → Bytes → Bytes → Outcome Bytes
patch_buffer_or_die file before after buffer = search_from file before after 0 buffer file

-- An `int` that holds the low 32 bits of a number: its value, and nothing where it is negative.
unfoldable pub as_int : ℕ → Option ℕ
as_int n = let low = n % 2 ^ 32 in if ltb low (2 ^ 31) then some low else none

-- `patch_file_before_size - before_pattern_size + after_pattern_size`, in 32 bits.
abbrev pub patch_file_after_size : Bytes → Bytes → Bytes → ℕ
patch_file_after_size file before after =
    length file + length after + (2 ^ 32 - length before % 2 ^ 32)

-- The part of `main` between reading and writing: `patch_file_after_size` bytes of zero, then the
-- patch. A negative size is a huge one to `calloc`, which zeroes memory behind the block.
unfoldable pub patch : Bytes → Bytes → Bytes → Outcome Bytes
patch file before after = elim (as_int (patch_file_after_size file before after)) [
  | none ↦ fault
  | some size ↦ patch_buffer_or_die file before after (replicate size 0)
]
