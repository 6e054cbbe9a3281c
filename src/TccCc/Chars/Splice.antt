-- ===== src/TccCc/Chars/Splice.antt =====
-- The line splice iterator: a backslash and the line feed behind it are left out.
use mes_replacement.Prelude.{
  ℕ, zero, suc, ◌≤◌, ◌≡◌, ◌≢◌, refl, sym, ap, subst, ◌∙◌, [], ◌∷◌, inl, inr, arith, ◌==◌, ◌&&◌,
  if◌then◌else◌, true, false, Bool-cases, length, Bytes,
}
use mes_replacement.TccCc.Chars.{Place, CharIterator, Ends, Yields, steps}

-- `line_splice_iterator_s`: the current character, the source, and `_a`, the character behind.
pub record SpliceIterator (S : Type 0) : Type 0 where
  pub ch : ℕ
  pub place : Place
  pub source : S
  pub a : ℕ

module _ {S : Type 0} (it : CharIterator S) where
  -- A character from the source, with its place, and the one behind it.
  abbrev after : ℕ → Place → S → SpliceIterator S
  after c p s = record { ch = c; place = p; source = s; a = it.ch s }

  -- The body of the `while`.
  abbrev join : SpliceIterator S → SpliceIterator S
  join st = let s = it.next st.source in after (it.ch s) (it.place s) (it.next s)

  unfoldable pub joined : ℕ → SpliceIterator S → SpliceIterator S
  joined zero st = st
  joined (suc fuel) st =
      let rest = joined fuel (join st) in if st.ch == b'\\' && st.a == b'\n' then rest else st

  unfoldable pub line_splice_iterator_next : SpliceIterator S → SpliceIterator S
  unfolding joined
  line_splice_iterator_next st =
      let taken = after st.a (it.place st.source) (it.next st.source) in
      if st.a == 0 then record st { ch = 0 } else joined (suc (it.left st.source)) taken

  unfoldable pub new_line_splice_iterator : S → SpliceIterator S
  new_line_splice_iterator s =
      line_splice_iterator_next (record { ch = 0; place = it.place s; source = s; a = it.ch s })

  abbrev pub splice_iterator : CharIterator (SpliceIterator S)
  splice_iterator = record {
    ch = λ st. st.ch;
    place = λ st. st.place;
    next = line_splice_iterator_next;
    left = λ st. suc (it.left st.source);
  }

-- The text without its pairs of a backslash and a line feed.
abbrev pub spliced : Bytes → Bytes
spliced [] = []
spliced (c ∷ []) = c ∷ []
spliced (c ∷ d ∷ cs) = if c == b'\\' && d == b'\n' then spliced cs else c ∷ spliced (d ∷ cs)

module _ {S : Type 0} (it : CharIterator S) where
  next-of_end :
      (st : SpliceIterator S) → st.a ≡ 0 → st.ch ≡ 0 → line_splice_iterator_next it st ≡ st
  unfolding line_splice_iterator_next
  next-of_end st a c =
      let e : (st.a == 0) ≡ true = ground arith in rw e (ap (λ d. record st { ch = d }) (sym c))

  next-of_live :
      (st : SpliceIterator S)
      → st.a ≢ 0
      → line_splice_iterator_next it st
        ≡ joined it
            (suc (it.left st.source))
            (after it st.a (it.place st.source) (it.next st.source))
  unfolding line_splice_iterator_next
  next-of_live st live = let e : (st.a == 0) ≡ false = ground arith in rw e refl

  joined-stop : (fuel : ℕ) (st : SpliceIterator S) → st.a ≡ 0 → joined it fuel st ≡ st
  unfolding joined
  joined-stop zero st e = refl
  joined-stop (suc fuel) st e =
      let f : (st.ch == b'\\' && st.a == b'\n') ≡ false = ground arith in rw f refl

  Ends-of_zero : (st : SpliceIterator S) → st.a ≡ 0 → st.ch ≡ 0 → Ends (splice_iterator it) st
  Ends-of_zero st a c zero = c
  Ends-of_zero st a c (suc n) =
      subst (λ s. (steps (splice_iterator it) n s).ch ≡ 0) (sym (next-of_end st a c))
        (Ends-of_zero st a c n)

  head-zero : (s : S) → Yields it s [] → it.ch s ≡ 0
  head-zero s y = y 0

  length-spliced : (n : ℕ) (cs : Bytes) → length cs ≤ n → length (spliced cs) ≤ length cs
  length-spliced n [] h = omega arith
  length-spliced n (c ∷ []) h = omega arith
  length-spliced zero (c ∷ d ∷ cs) h = absurd (omega arith)
  length-spliced (suc n) (c ∷ d ∷ cs) h =
      ground (arith, length-spliced n cs, length-spliced n (d ∷ cs))

  next-last :
      (st : SpliceIterator S) → st.a ≡ 0 → line_splice_iterator_next it st ≡ record st { ch = 0 }
  unfolding line_splice_iterator_next
  next-last st a = let e : (st.a == 0) ≡ true = ground arith in rw e refl

  -- With nothing behind the current character.
  last-Yields :
      (st : SpliceIterator S) → st.ch ≢ 0 → st.a ≡ 0 → Yields (splice_iterator it) st (st.ch ∷ [])
  last-Yields st live a = (
    refl,
    live,
    omega arith,
    subst (Ends (splice_iterator it)) (sym (next-last st a))
        (Ends-of_zero (record st { ch = 0 }) a refl),
  )

  -- What a state that has taken the character `c` gives, with `cs` behind it.
  abbrev Joins : ℕ → ℕ → Place → S → Bytes → Type 0
  Joins fuel c p s cs =
      Yields (splice_iterator it) (joined it fuel (after it c p s)) (spliced (c ∷ cs))

  -- The character behind a pair that is left out.
  rejoined-Yields :
      (fuel : ℕ) (s : S) (cs : Bytes)
      → ((d : ℕ) (p : Place) (r : S) (ds : Bytes)
          → suc (length ds) ≤ length cs
          → d ≢ 0
          → Yields it r ds
          → Joins fuel d p r ds)
      → Yields it s cs
      → Yields
          (splice_iterator it)
          (joined it fuel (after it (it.ch s) (it.place s) (it.next s)))
          (spliced cs)
  rejoined-Yields fuel s [] ih y =
      rw (joined-stop fuel (after it (it.ch s) (it.place s) (it.next s)) (y 1))
        (Ends-of_zero (after it (it.ch s) (it.place s) (it.next s)) (y 1) (y 0))
  rejoined-Yields fuel s (d ∷ cs) ih (e, live, bound, y) =
      rw e (ih d (it.place s) (it.next s) cs (omega arith) live y)

  joined-Yields :
      (n fuel c : ℕ) (p : Place) (s : S) (cs : Bytes)
      → length cs ≤ n
      → length cs ≤ fuel
      → c ≢ 0
      → Yields it s cs
      → Joins fuel c p s cs
  unfolding joined
  joined-Yields n fuel c p s [] h k live y =
      rw (joined-stop fuel (after it c p s) (y 0)) (last-Yields (after it c p s) live (y 0))
  joined-Yields zero fuel c p s (d ∷ cs) h k live y = absurd (omega arith)
  joined-Yields (suc n) zero c p s (d ∷ cs) h k live y = absurd (omega arith)
  joined-Yields (suc n) (suc fuel) c p s (d ∷ cs) h k live (e, d_live, bound, y) =
      elim (Bool-cases (c == b'\\' && d == b'\n')) [
        | inl pair ↦
            let seen : (c == b'\\' && it.ch s == b'\n') ≡ true = rw e pair in
            rw (seen, pair)
              (rejoined-Yields fuel (it.next s) cs
                (λ f p' r ds l v z.
                  joined-Yields n fuel f p' r ds (omega (arith, l)) (omega (arith, l)) v z)
                y)
        | inr other ↦
            let seen : (c == b'\\' && it.ch s == b'\n') ≡ false = rw e other in
            rw (seen, other)
              (
                refl,
                live,
                omega (arith, length-spliced (suc n) (d ∷ cs) h),
                subst (λ t. Yields (splice_iterator it) t (spliced (d ∷ cs)))
                    (sym (next-of_live (after it c p s) (λ z. d_live (sym e ∙ z))))
                    (rw e (
                      joined-Yields n (suc (it.left s)) d (it.place s) (it.next s) cs (omega arith)
                        (omega arith) d_live y)),
              )
      ]

  -- Over any source, the line splice iterator gives the text of the source without the pairs of a
  -- backslash and a line feed.
  pub new_line_splice_iterator-Yields :
      (s : S) (cs : Bytes)
      → Yields it s cs
      → Yields (splice_iterator it) (new_line_splice_iterator it s) (spliced cs)
  unfolding new_line_splice_iterator
  new_line_splice_iterator-Yields s [] y =
      let st : SpliceIterator S = record { ch = 0; place = it.place s; source = s; a = it.ch s } in
      subst (Ends (splice_iterator it)) (sym (next-of_end st (y 0) refl))
        (Ends-of_zero st (y 0) refl)
  new_line_splice_iterator-Yields s (c ∷ cs) (e, live, bound, y) =
      let st : SpliceIterator S = record { ch = 0; place = it.place s; source = s; a = it.ch s } in
      subst (λ t. Yields (splice_iterator it) t (spliced (c ∷ cs)))
        (sym (next-of_live st (λ z. live (sym e ∙ z))))
        (rw e (
          joined-Yields (length cs) (suc (it.left s)) c (it.place s) (it.next s) cs (omega arith)
            (omega arith) live y))
