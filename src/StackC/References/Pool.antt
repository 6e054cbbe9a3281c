-- ===== src/StackC/References/Pool.antt =====
-- The string pool and its numbers.
use mes_replacement.Prelude.{
  ℕ, zero, suc, ◌≡◌, refl, ap, ◌⊎◌, inl, inr, List, [], ◌∷◌, some, arith, get_elem?, Bool-cases,
  same_text, same_text_iff, Bytes,
}
use mathlib.Core.Option.{some-injective}
use mes_replacement.StackC.State.{nr_for_string}

-- The number that is returned is that of the string.
pub nr_for_string-finds :
    (s : Bytes) (pool : List Bytes)
    → get_elem? (nr_for_string s pool).1 (nr_for_string s pool).0 ≡ some s
unfolding nr_for_string
nr_for_string-finds s [] = refl
nr_for_string-finds s (cur ∷ rest) = elim (Bool-cases (same_text cur s)) [
  | inl e ↦ rw e (ap some ((same_text_iff cur s).0 e))
  | inr e ↦ rw e (nr_for_string-finds s rest)
]

-- No string that has a number gets another one.
pub nr_for_string-keeps :
    (s : Bytes) (pool : List Bytes) (n : ℕ) (t : Bytes)
    → get_elem? pool n ≡ some t
    → get_elem? (nr_for_string s pool).1 n ≡ some t
unfolding nr_for_string
nr_for_string-keeps s [] n t h = cc
nr_for_string-keeps s (cur ∷ rest) zero t h = elim (Bool-cases (same_text cur s)) [
  | inl e ↦ rw e h
  | inr e ↦ rw e h
]
nr_for_string-keeps s (cur ∷ rest) (suc n) t h = elim (Bool-cases (same_text cur s)) [
  | inl e ↦ rw e h
  | inr e ↦ rw e (nr_for_string-keeps s rest n t h)
]

-- Each string of the pool has one number.
abbrev pub IsDistinct : List Bytes → Type 0
IsDistinct pool =
    (n m : ℕ) (t : Bytes) → get_elem? pool n ≡ some t → get_elem? pool m ≡ some t → n ≡ m

-- A string that is at a place of the grown pool is there already, or is the new one, at its number.
nr_for_string-origin :
    (s : Bytes) (pool : List Bytes) (n : ℕ) (t : Bytes)
    → get_elem? (nr_for_string s pool).1 n ≡ some t
    → (get_elem? pool n ≡ some t) ⊎ ((t ≡ s) × (n ≡ (nr_for_string s pool).0))
unfolding nr_for_string
nr_for_string-origin s [] zero t h = inr (ground arith, refl)
nr_for_string-origin s [] (suc n) t h = cc
nr_for_string-origin s (cur ∷ rest) zero t h = elim (Bool-cases (same_text cur s)) [
  | inl e ↦ inl (rw e at h)
  | inr e ↦ inl (rw e at h)
]
nr_for_string-origin s (cur ∷ rest) (suc n) t h = elim (Bool-cases (same_text cur s)) [
  | inl e ↦ inl (rw e at h)
  | inr e ↦ elim (nr_for_string-origin s rest n t (rw e at h)) [
    | inl old ↦ inl old
    | inr (same, nr) ↦ inr (same, rw e (ap suc nr))
  ]
]

nr_for_string-present :
    (s : Bytes) (pool : List Bytes) (n : ℕ)
    → get_elem? pool n ≡ some s
    → get_elem? pool (nr_for_string s pool).0 ≡ some s
unfolding nr_for_string
nr_for_string-present s [] n h = cc
nr_for_string-present s (cur ∷ rest) zero h = elim (Bool-cases (same_text cur s)) [
  | inl e ↦ rw e h
  | inr e ↦ cc ((same_text_iff cur s).1 (some-injective _ _ h))
]
nr_for_string-present s (cur ∷ rest) (suc n) h = elim (Bool-cases (same_text cur s)) [
  | inl e ↦ rw e (ap some ((same_text_iff cur s).0 e))
  | inr e ↦ rw e (nr_for_string-present s rest n h)
]

-- The pool keeps its strings distinct, so equal literals share a number.
pub nr_for_string-IsDistinct :
    (s : Bytes) (pool : List Bytes) → IsDistinct pool → IsDistinct (nr_for_string s pool).1
nr_for_string-IsDistinct s pool d n m t hn hm = elim (nr_for_string-origin s pool n t hn) [
  | inl n_old ↦ elim (nr_for_string-origin s pool m t hm) [
    | inl m_old ↦ d n m t n_old m_old
    | inr (e, m_new) ↦ omega (arith, number_of n (rw e at n_old))
  ]
  | inr (e, n_new) ↦ elim (nr_for_string-origin s pool m t hm) [
    | inl m_old ↦ omega (arith, number_of m (rw e at m_old))
    | inr (f, m_new) ↦ omega arith
  ]
]
  where
    number_of : (k : ℕ) → get_elem? pool k ≡ some s → (nr_for_string s pool).0 ≡ k
    number_of k h = d _ k s (nr_for_string-present s pool k h) h
