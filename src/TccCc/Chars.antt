-- ===== src/TccCc/Chars.antt =====
-- The character iterators of the preprocessor. An iterator is a state with its current character, the
-- place of that character and the step to the next one; after the last character comes NUL for ever.
pub mod File
pub mod Splice
pub mod Strip
pub mod Include
use mes_replacement.Prelude.{ℕ, zero, suc, ◌≡◌, ◌≢◌, ◌≤◌, [], ◌∷◌, length, Bytes}

-- `filename`, `line` and `column` of a `char_iterator_t`.
pub record Place : Type 0 where
  pub filename : Bytes
  pub line : ℕ
  pub column : ℕ

-- `char_iterator_t`: the members that its users read, and its function `next`. `left` is not in the
-- code: it bounds the characters still to come, for the loops over them.
pub record CharIterator (S : Type 0) : Type 0 where
  pub ch : S → ℕ
  pub place : S → Place
  pub next : S → S
  pub left : S → ℕ

module _ {S : Type 0} (it : CharIterator S) where
  open it use {ch, next, left}

  abbrev pub steps : ℕ → S → S
  steps zero s = s
  steps (suc n) s = steps n (next s)

  -- The iterator is at the end and stays there.
  abbrev pub Ends : S → Type 0
  Ends s = (n : ℕ) → ch (steps n s) ≡ 0

  -- From this state on the iterator gives these characters, and then NUL.
  abbrev pub Yields : S → Bytes → Type 0
  Yields s [] = Ends s
  Yields s (c ∷ cs) = (ch s ≡ c) × (c ≢ 0) × (length (c ∷ cs) ≤ left s) × Yields (next s) cs
