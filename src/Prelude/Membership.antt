-- ===== src/Prelude/Membership.antt =====
-- Membership as data: the place of the element is kept.
use mathlib.Core.List.{List, [], ◌∷◌, ◌++◌}
use mathlib.Core.Logic.{◌⊎◌, inl, inr}

pub data Member {ℓ} {A : Type ℓ} (x : A) : List A → Type ℓ where
  here : {xs : List A} → Member x (x ∷ xs)
  there : {y : A} {xs : List A} → Member x xs → Member x (y ∷ xs)

module _ {ℓ} {A : Type ℓ} {x : A} where
  pub Member-append_left : {xs : List A} (ys : List A) → Member x xs → Member x (xs ++ ys)
  Member-append_left ys here = here
  Member-append_left ys (there m) = there (Member-append_left ys m)

  pub Member-append_right : (xs : List A) {ys : List A} → Member x ys → Member x (xs ++ ys)
  Member-append_right [] m = m
  Member-append_right (y ∷ xs) m = there (Member-append_right xs m)

  pub Member-append : (xs ys : List A) → Member x (xs ++ ys) → Member x xs ⊎ Member x ys
  Member-append [] ys m = inr m
  Member-append (y ∷ xs) ys here = inl here
  Member-append (y ∷ xs) ys (there m) = elim (Member-append xs ys m) [
    | inl l ↦ inl (there l)
    | inr r ↦ inr r
  ]

  pub not_Member-nil : ¬ (Member x [])
  not_Member-nil m = none_in m
    where
      none_in : Member x [] → ⊥
      none_in m = elim m [ ]
