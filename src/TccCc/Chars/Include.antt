-- ===== src/TccCc/Chars/Include.antt =====
-- The include iterator: a stack of character iterators, of which the one on top is read.
use mes_replacement.Prelude.{
  ℕ, zero, suc, ◌+◌, ◌≤◌, ◌<◌, ◌≡◌, ◌≢◌, refl, sym, subst, List, [], ◌∷◌, ◌++◌, Option, none, some,
  true, false, arith, ◌==◌, if◌then◌else◌, ltb, length, length-append, append-nil, Bytes,
}
use mes_replacement.TccCc.Chars.{Place, CharIterator, Ends, Yields, steps}
use mes_replacement.TccCc.Chars.Strip.Laws.{Yields-left}

-- `include_iterator_s`. The parent that was put away last comes first.
pub record IncludeIterator (S : Type 0) : Type 0 where
  pub ch : ℕ
  pub place : Place
  pub source : S
  pub parents : List S

-- The room of `_parent_source_its`.
abbrev pub nr_parents_max : ℕ
nr_parents_max = 10

module _ {S : Type 0} (it : CharIterator S) where
  -- The parent on top becomes the source, behind a line feed.
  unfoldable pub return_to : List S → S → IncludeIterator S → IncludeIterator S
  return_to [] s st = record st { ch = 0; source = s }
  return_to (p ∷ ps) s st = record { ch = b'\n'; place = it.place p; source = p; parents = ps }

  unfoldable pub include_iterator_next : IncludeIterator S → IncludeIterator S
  unfolding return_to
  include_iterator_next st =
      let s = it.next st.source in
      if it.ch s == 0
      then return_to st.parents s st
      else record st { ch = it.ch s; place = it.place s; source = s }

  -- Nothing where the code would write behind `_parent_source_its`.
  unfoldable pub include_iterator_add : IncludeIterator S → S → Option (IncludeIterator S)
  include_iterator_add st s =
      if ltb (length st.parents) nr_parents_max
      then some (record {
        ch = it.ch s;
        place = it.place s;
        source = s;
        parents = st.source ∷ st.parents;
      })
      else none

  unfoldable pub new_include_iterator : S → IncludeIterator S
  new_include_iterator s = record { ch = it.ch s; place = it.place s; source = s; parents = [] }

  abbrev parents_left : List S → ℕ
  parents_left [] = 0
  parents_left (p ∷ ps) = suc (it.left p + parents_left ps)

  abbrev pub include_iterator : CharIterator (IncludeIterator S)
  include_iterator = record {
    ch = λ st. st.ch;
    place = λ st. st.place;
    next = include_iterator_next;
    left = λ st. suc (it.left st.source + parents_left st.parents);
  }

-- All but the current character.
abbrev pub behind : Bytes → Bytes
behind [] = []
behind (c ∷ cs) = cs

-- What comes behind the source: for each parent a line feed, and what is behind the character at
-- which the parent stands.
abbrev pub returned : List Bytes → Bytes
returned [] = []
returned (t ∷ ts) = b'\n' ∷ (behind t ++ returned ts)

module _ {S : Type 0} (it : CharIterator S) where
  -- Each parent gives its text.
  abbrev pub Stand : List S → List Bytes → Type 0
  Stand [] [] = Unit
  Stand [] (t ∷ ts) = ⊥
  Stand (p ∷ ps) [] = ⊥
  Stand (p ∷ ps) (t ∷ ts) = Yields it p t × Stand ps ts

  Yields-behind : (s : S) (cs : Bytes) → Yields it s cs → Yields it (it.next s) (behind cs)
  Yields-behind s [] y = λ n. y (suc n)
  Yields-behind s (c ∷ cs) (e, live, bound, y) = y

  length-behind : (cs : Bytes) → length (behind cs) ≤ length cs
  length-behind [] = omega arith
  length-behind (c ∷ cs) = omega arith

  length-returned :
      (ps : List S) (ts : List Bytes) → Stand ps ts → length (returned ts) ≤ parents_left it ps
  length-returned [] [] h = omega arith
  length-returned [] (t ∷ ts) h = omega arith
  length-returned (p ∷ ps) [] h = absurd h
  length-returned (p ∷ ps) (t ∷ ts) (y, h) = omega (
    arith,
    length-behind t,
    Yields-left it p t y,
    length-returned ps ts h,
    length-append (behind t) (returned ts),
  )

  next-live :
      (st : IncludeIterator S) (c : ℕ)
      → it.ch (it.next st.source) ≡ c
      → c ≢ 0
      → include_iterator_next it st ≡ record st {
        ch = it.ch (it.next st.source);
        place = it.place (it.next st.source);
        source = it.next st.source;
      }
  unfolding include_iterator_next
  next-live st c e live =
      let f : (it.ch (it.next st.source) == 0) ≡ false = ground (arith, e, live) in rw f refl

  next-over :
      (st : IncludeIterator S)
      → st.parents ≡ []
      → it.ch (it.next st.source) ≡ 0
      → include_iterator_next it st ≡ record st { ch = 0; source = it.next st.source }
  unfolding include_iterator_next return_to
  next-over st p e =
      let f : (it.ch (it.next st.source) == 0) ≡ true = ground (arith, e) in rw (f, p) refl

  next-pop :
      (st : IncludeIterator S) (q : S) (ps : List S)
      → st.parents ≡ q ∷ ps
      → it.ch (it.next st.source) ≡ 0
      → include_iterator_next it st
        ≡ record { ch = b'\n'; place = it.place q; source = q; parents = ps }
  unfolding include_iterator_next return_to
  next-pop st q ps p e =
      let f : (it.ch (it.next st.source) == 0) ≡ true = ground (arith, e) in rw (f, p) refl

  steps-ended :
      (n : ℕ) (st : IncludeIterator S)
      → st.parents ≡ []
      → st.ch ≡ 0
      → Ends it st.source
      → (steps (include_iterator it) n st).ch ≡ 0
  steps-ended zero st p c e = c
  steps-ended (suc n) st p c e =
      subst (λ t. (steps (include_iterator it) n t).ch ≡ 0) (sym (next-over st p (e 1)))
        (steps-ended n (record st { ch = 0; source = it.next st.source }) p refl (λ k. e (suc k)))

  next-Yields :
      (cs : Bytes) (ts : List Bytes) (ps : List S) (st : IncludeIterator S)
      → st.parents ≡ ps
      → Stand ps ts
      → Yields it (it.next st.source) cs
      → Yields (include_iterator it) (include_iterator_next it st) (cs ++ returned ts)
  unfolding return_to
  next-Yields (c ∷ cs) ts ps st p h (e, live, bound, y) =
      let st' : IncludeIterator S = record st {
        ch = it.ch (it.next st.source);
        place = it.place (it.next st.source);
        source = it.next st.source;
      } in
      let room : length (returned ts) ≤ parents_left it st.parents =
        rw p (length-returned ps ts h) in
      rw (next-live st c e live) (
        e,
        live,
        omega (arith, room, length-append cs (returned ts)),
        next-Yields cs ts ps st' p h y,
      )
  next-Yields [] [] [] st p h y =
      subst (Ends (include_iterator it)) (sym (next-over st p (y 0)))
        (λ n. steps-ended n (record st { ch = 0; source = it.next st.source }) p refl y)
  next-Yields [] [] (q ∷ ps) st p h y = absurd h
  next-Yields [] (t ∷ ts) [] st p h y = absurd h
  next-Yields [] (t ∷ ts) (q ∷ ps) st p (u, h) y =
      let st' : IncludeIterator S = record {
        ch = b'\n';
        place = it.place q;
        source = q;
        parents = ps;
      } in
      subst (λ s. Yields (include_iterator it) s (returned (t ∷ ts)))
        (sym (next-pop st q ps p (y 0)))
        (
          refl,
          (λ z. ground (arith, z)),
          omega (
            arith,
            length-append (behind t) (returned ts),
            length-behind t,
            Yields-left it q t u,
            length-returned ps ts h,
          ),
          next-Yields (behind t) ts ps st' refl h (Yields-behind q t u),
        )

  -- An included iterator that has a character gives its characters, and behind each end of a source
  -- a line feed and what is behind the character at which the parent stood. It can be added as long
  -- as there are fewer than ten parents.
  pub include_iterator_add-Yields :
      (st : IncludeIterator S) (s : S) (c : ℕ) (cs t : Bytes) (ts : List Bytes)
      → length st.parents < nr_parents_max
      → Yields it s (c ∷ cs)
      → Yields it st.source t
      → Stand st.parents ts
      → (st' : IncludeIterator S) × (include_iterator_add it st s ≡ some st')
        × Yields (include_iterator it) st' (c ∷ cs ++ returned (t ∷ ts))
  unfolding include_iterator_add
  include_iterator_add-Yields st s c cs t ts room (e, live, bound, y) u h =
      let f : ltb (length st.parents) nr_parents_max ≡ true = ground (arith, room) in
      let st' : IncludeIterator S = record {
        ch = it.ch s;
        place = it.place s;
        source = s;
        parents = st.source ∷ st.parents;
      } in
      rw f (
        st',
        refl,
        (
          e,
          live,
          omega (
            arith,
            length-append cs (returned (t ∷ ts)),
            length-append (behind t) (returned ts),
            length-behind t,
            Yields-left it st.source t u,
            length-returned st.parents ts h,
          ),
          next-Yields cs (t ∷ ts) (st.source ∷ st.parents) st' refl (u, h) y,
        ),
      )

  -- Without an included source the include iterator gives the characters of its source.
  pub new_include_iterator-Yields :
      (s : S) (cs : Bytes)
      → Yields it s cs
      → Yields (include_iterator it) (new_include_iterator it s) cs
  unfolding new_include_iterator
  new_include_iterator-Yields s [] y = λ n. steps-ended n (new_include_iterator it s) refl (y 0) y
  new_include_iterator-Yields s (c ∷ cs) (e, live, bound, y) = (
    e,
    live,
    omega (arith, bound),
    subst (Yields (include_iterator it) (include_iterator_next it (new_include_iterator it s)))
        (append-nil cs) (next-Yields cs [] [] (new_include_iterator it s) refl _ y),
  )
