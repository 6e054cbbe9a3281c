-- ===== src/Libc/Sort/Laws.antt =====
-- Laws of `qsort` and of its exchange: inversions, order and elements.
use mes_replacement.Prelude.{
  ℕ, zero, suc, ◌+◌, ◌≤◌, ◌<◌, ◌≡◌, refl, sym, ap, subst, ◌∙◌, Bool, true, false, inl, inr, List,
  [], ◌∷◌, some, arith, if◌then◌else◌, Bool-cases,
}
use mes_replacement.Libc.Sort.{bubble, pass, qsort}

module _ {ℓ} {A : Type ℓ} where
  -- How many elements pass a test.
  abbrev pub count : (A → Bool) → List A → ℕ
  count p [] = 0
  count p (x ∷ xs) = if p x then suc (count p xs) else count p xs

module _ {ℓ} {A : Type ℓ} (greater : A → A → Bool) where
  -- The pairs that stand in the wrong order.
  abbrev pub inversions : List A → ℕ
  inversions [] = 0
  inversions (x ∷ xs) = count (greater x) xs + inversions xs

  -- No element is greater than the next one.
  abbrev pub InOrder : List A → Type 0
  InOrder [] = Unit
  InOrder (x ∷ []) = Unit
  InOrder (x ∷ y ∷ rest) = (greater x y ≡ false) × InOrder (y ∷ rest)

  bubble-count :
      (p : A → Bool) (x : A) (xs : List A) → count p (bubble greater x xs).1 ≡ count p (x ∷ xs)
  unfolding bubble
  bubble-count p x [] = refl
  bubble-count p x (y ∷ rest) = elim (Bool-cases (greater x y)) [
    | inl e ↦ rw e (ground (arith, bubble-count p x rest))
    | inr e ↦ rw e (ground (arith, bubble-count p y rest))
  ]

  pass-count : (p : A → Bool) (xs : List A) → count p (pass greater xs).1 ≡ count p xs
  unfolding pass
  pass-count p [] = refl
  pass-count p (x ∷ rest) = bubble-count p x rest

  module _ (asym : (x y : A) → greater x y ≡ true → greater y x ≡ false) where
    -- An exchange takes away one inversion at least.
    bubble-inversions :
        (x : A) (xs : List A)
        → (if (bubble greater x xs).0 then 1 else 0) + inversions (bubble greater x xs).1
          ≤ inversions (x ∷ xs)
    unfolding bubble
    bubble-inversions x [] = omega arith
    bubble-inversions x (y ∷ rest) = elim (Bool-cases (greater x y)) [
      | inl e ↦
          let f : greater y x ≡ false = asym x y e in
          let c : count (greater y) (bubble greater x rest).1 ≡ count (greater y) rest =
            bubble-count (greater y) x rest ∙ rw f refl in
          rw (e, c) (ground (arith, bubble-inversions x rest))
      | inr e ↦
          let c : count (greater x) (bubble greater y rest).1 ≡ count (greater x) rest =
            bubble-count (greater x) y rest ∙ rw e refl in
          rw (e, c) (omega (arith, bubble-inversions y rest))
    ]

    pass-inversions :
        (xs : List A) → (pass greater xs).0 ≡ true → inversions (pass greater xs).1 < inversions xs
    unfolding pass
    pass-inversions [] h = cc
    pass-inversions (x ∷ rest) h = let le = bubble-inversions x rest in omega (arith, rw h at le)

  -- A pass that exchanges nothing has found the array in order.
  bubble-InOrder :
      (x : A) (xs : List A)
      → (bubble greater x xs).0 ≡ false
      → ((bubble greater x xs).1 ≡ x ∷ xs) × InOrder (x ∷ xs)
  unfolding bubble
  bubble-InOrder x [] h = (refl, tt)
  bubble-InOrder x (y ∷ rest) h = elim (Bool-cases (greater x y)) [
    | inl e ↦ absurd (ground arith)
    | inr e ↦
        let (same, order) = bubble-InOrder y rest (rw e at h) in
        (rw e (ap (◌∷◌ x) same), (e, order))
  ]

  pass-InOrder : (xs : List A) → (pass greater xs).0 ≡ false → InOrder (pass greater xs).1
  unfolding pass
  pass-InOrder [] h = tt
  pass-InOrder (x ∷ rest) h =
      let (same, order) = bubble-InOrder x rest h in subst InOrder (sym same) order

  -- The array in order, with the elements that it had.
  pub record Sorts (xs ys : List A) : Type ℓ where
    pub order : InOrder ys
    pub elements : (p : A → Bool) → count p ys ≡ count p xs

  module _ (asym : (x y : A) → greater x y ≡ true → greater y x ≡ false) where
    qsort-on :
        (fuel : ℕ) (xs : List A)
        → inversions xs < fuel
        → (ys : List A) × (qsort greater fuel xs ≡ some ys) × Sorts xs ys
    unfolding qsort
    qsort-on zero xs h = absurd (omega arith)
    qsort-on (suc fuel) xs h = elim (Bool-cases (pass greater xs).0) [
      | inl e ↦
          let (ys, run, s) =
            qsort-on fuel (pass greater xs).1 (omega (arith, pass-inversions asym xs e)) in
          (ys, rw e run, record { order = s.order; elements = λ p. s.elements p ∙ pass-count p xs })
      | inr e ↦ (
        (pass greater xs).1,
        rw e refl,
        record { order = pass-InOrder xs e; elements = λ p. pass-count p xs },
      )
    ]

    -- If no two elements are each greater than the other, the sort ends, within one pass more than
    -- the array has inversions; the result has the elements of the array, and no element of it is
    -- greater than the next.
    pub qsort-Sorts :
        (xs : List A)
        → (ys : List A) × (qsort greater (suc (inversions xs)) xs ≡ some ys) × Sorts xs ys
    qsort-Sorts xs = qsort-on (suc (inversions xs)) xs (omega arith)
