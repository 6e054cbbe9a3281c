-- ===== src/TccCc/Chars/Strip/Laws.antt =====
-- The coroutine over a source that gives the text of some pieces.
use mes_replacement.Prelude.{
  ℕ, zero, suc, ◌≤◌, ◌<◌, ◌≡◌, ◌≢◌, refl, sym, ◌∙◌, subst, [], ◌∷◌, ◌++◌, Bool, true, not, ◌&&◌,
  ◌||◌, arith, ◌==◌, while_do, while_do_go, while_do_stop, length, Bytes,
}
use mes_replacement.TccCc.Chars.{CharIterator, Ends, Yields, steps}
use mes_replacement.TccCc.Chars.Strip.{
  Label, StripIterator, take, look, skip_line, resumed_s0, goto_s0, comment_strip_iterator_next,
  strip_iterator,
}
use mes_replacement.TccCc.Chars.Strip.Pieces.{head_of, is_ordinary, in_line, in_block}

module _ {S : Type 0} (it : CharIterator S) where
  pub Yields-head : (s : S) (cs : Bytes) → Yields it s cs → it.ch s ≡ head_of cs
  Yields-head s [] y = y 0
  Yields-head s (c ∷ cs) (e, live, bound, y) = e

  pub Yields-left : (s : S) (cs : Bytes) → Yields it s cs → length cs ≤ it.left s
  Yields-left s [] y = omega arith
  Yields-left s (c ∷ cs) (e, live, bound, y) = bound

  -- The coroutine gives `c`, and then what the next call leads to.
  pub gives :
      (st : StripIterator S) (c : ℕ) (out cs : Bytes)
      → st.ch ≡ c
      → c ≢ 0
      → Yields it st.source cs
      → length out ≤ length cs
      → Yields (strip_iterator it) (comment_strip_iterator_next it st) out
      → Yields (strip_iterator it) st (c ∷ out)
  gives st c out cs e live y room next = (e, live, omega (arith, Yields-left st.source cs y), next)

  -- At the end of the source.
  pub stopped :
      (st : StripIterator S)
      → st.a ≡ 0
      → st.ch ≡ 0
      → st.state ≡ Label.s0
      → comment_strip_iterator_next it st ≡ st
  unfolding comment_strip_iterator_next goto_s0 resumed_s0
  stopped st a c s = let e : (st.a == 0) ≡ true = ground arith in rw (s, e) (cc)

  pub Ends-stopped :
      (st : StripIterator S)
      → st.a ≡ 0
      → st.ch ≡ 0
      → st.state ≡ Label.s0
      → Ends (strip_iterator it) st
  Ends-stopped st a c s zero = c
  Ends-stopped st a c s (suc n) =
      subst (λ t. (steps (strip_iterator it) n t).ch ≡ 0) (sym (stopped st a c s))
        (Ends-stopped st a c s n)

  -- An ordinary character is taken.
  pub resumed_s0-ordinary :
      (fuel : ℕ) (st : StripIterator S)
      → is_ordinary st.a (it.ch (it.next st.source)) ≡ true
      → resumed_s0 it (suc fuel) st ≡ take it st
  unfolding resumed_s0
  resumed_s0-ordinary fuel st h = ground arith

  pub resumed_s0-end :
      (fuel : ℕ) (st : StripIterator S)
      → st.a ≡ 0
      → resumed_s0 it (suc fuel) st ≡ record st { ch = 0 }
  unfolding resumed_s0
  resumed_s0-end fuel st h = let e : (st.a == 0) ≡ true = ground arith in rw e refl

  pub resumed_s0-line :
      (fuel : ℕ) (st : StripIterator S)
      → st.a ≡ b'/'
      → it.ch (it.next st.source) ≡ b'/'
      → resumed_s0 it (suc fuel) st
        ≡ resumed_s0 it fuel (record (skip_line it (take it st)) { state = Label.s0 })
  unfolding resumed_s0
  resumed_s0-line fuel st h k = rw (h, k) refl

  pub resumed_s0-block :
      (fuel : ℕ) (st : StripIterator S)
      → st.a ≡ b'/'
      → it.ch (it.next st.source) ≡ b'*'
      → resumed_s0 it (suc fuel) st ≡ record (take it st) { ch = b' '; state = Label.s1 }
  unfolding resumed_s0
  resumed_s0-block fuel st h k = rw (h, k) refl

  pub resumed_s0-string :
      (fuel : ℕ) (st : StripIterator S)
      → st.a ≡ b'"'
      → resumed_s0 it (suc fuel) st ≡ record (take it st) { state = Label.s2 }
  unfolding resumed_s0
  resumed_s0-string fuel st h = rw h refl

  pub resumed_s0-char :
      (fuel : ℕ) (st : StripIterator S)
      → st.a ≡ b'\''
      → resumed_s0 it (suc fuel) st ≡ record (take it st) { state = Label.s6 }
  unfolding resumed_s0
  resumed_s0-char fuel st h = rw h refl

  abbrev pub line_test : StripIterator S → Bool
  line_test t = not (t.a == 0) && not (t.a == b'\n')

  -- The loop over a line comment stops at the line feed behind it.
  pub skip_line-on :
      (fuel : ℕ) (st : StripIterator S) (body cs : Bytes)
      → length body < fuel
      → in_line body ≡ true
      → st.a ≡ head_of (body ++ b'\n' ∷ cs)
      → Yields it st.source (body ++ b'\n' ∷ cs)
      → (t : StripIterator S) × (while_do fuel line_test (look it) st ≡ t)
        × (t.a ≡ b'\n')
        × Yields it t.source (b'\n' ∷ cs)
  skip_line-on zero st body cs h v a y = absurd (omega arith)
  skip_line-on (suc fuel) st [] cs h v a y =
      (st, while_do_stop line_test (look it) (suc fuel) st (rw a refl), a, y)
  skip_line-on (suc fuel) st (c ∷ body) cs h v a (e, live, bound, y) =
      let (t, run, at, z) =
        skip_line-on fuel (look it st) body cs (omega arith) (ground arith)
          (Yields-head (it.next st.source) (body ++ b'\n' ∷ cs) y) y in
      (t, while_do_go line_test (look it) fuel st (ground arith) ∙ run, at, z)

  abbrev pub comment_test : StripIterator S → Bool
  comment_test t = not (t.ch == 0) && (not (t.ch == b'*') || not (t.a == b'/'))

  abbrev pub along : StripIterator S → StripIterator S
  along t = look it (record t { ch = t.a })

  -- The loop over a block comment stops at the star and the slash that end it.
  pub skip_comment-on :
      (fuel : ℕ) (st : StripIterator S) (c : ℕ) (body cs : Bytes)
      → length body < fuel
      → in_block (c ∷ body) ≡ true
      → st.ch ≡ c
      → st.a ≡ head_of (body ++ b'*' ∷ b'/' ∷ cs)
      → Yields it st.source (body ++ b'*' ∷ b'/' ∷ cs)
      → (t : StripIterator S) × (while_do fuel comment_test along st ≡ t)
        × (t.ch ≡ b'*')
        × Yields it t.source (b'/' ∷ cs)
  skip_comment-on zero st c body cs h v e a y = absurd (omega arith)
  skip_comment-on (suc fuel) st c [] cs h v e a (d, live, bound, y) = (
    along st,
    while_do_go comment_test along fuel st (ground arith)
        ∙ while_do_stop comment_test along fuel (along st) (rw (a, y.0) refl),
    a,
    y,
  )
  skip_comment-on (suc fuel) st c (d ∷ body) cs h v e a (f, live, bound, y) =
      let (t, run, at, z) =
        skip_comment-on fuel (along st) d body cs (omega arith) (ground arith) a
          (Yields-head (it.next st.source) (body ++ b'*' ∷ b'/' ∷ cs) y) y in
      (t, while_do_go comment_test along fuel st (ground arith) ∙ run, at, z)
