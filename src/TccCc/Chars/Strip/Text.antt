-- ===== src/TccCc/Chars/Strip/Text.antt =====
-- The coroutine, piece by piece.
use mes_replacement.Prelude.{
  ℕ, zero, suc, ◌≤◌, ◌<◌, ◌≡◌, ◌≢◌, refl, sym, ap, ◌∙◌, subst, [], ◌∷◌, ◌++◌, true, false, arith,
  ◌==◌, if◌then◌else◌, while_do_stop, length, length-append, Bytes,
}
use mes_replacement.TccCc.Chars.{CharIterator, Yields}
use mes_replacement.TccCc.Chars.Strip.{
  Label, StripIterator, take, advance_behind, look, skip_line, skip_comment, resumed_s0, goto_s0,
  resumed_s1, resumed, comment_strip_iterator_next, strip_iterator,
}
use mes_replacement.TccCc.Chars.Strip.Pieces.{head_of, is_ordinary, in_line, in_block}
use mes_replacement.TccCc.Chars.Strip.Laws.{
  Yields-head, Yields-left, gives, Ends-stopped, resumed_s0-ordinary, resumed_s0-end,
  resumed_s0-line, resumed_s0-block, skip_line-on, skip_comment-on, comment_test, along,
}

module _ {S : Type 0} (it : CharIterator S) where
  abbrev pub Gives : StripIterator S → Bytes → Type 0
  Gives st out = Yields (strip_iterator it) st out

  -- From the label `s0` on, wherever the source gives `cs`, the coroutine gives `out`.
  abbrev pub Resumes : Bytes → Bytes → Type 0
  Resumes cs out =
      (st : StripIterator S)
      → st.a ≡ head_of cs
      → Yields it st.source cs
      → Gives (goto_s0 it st) out

  -- The current character, and what the next call leads to.
  pub emit :
      (st t : StripIterator S) (c : ℕ) (out cs : Bytes)
      → st.ch ≡ c
      → c ≢ 0
      → Yields it st.source cs
      → length out ≤ length cs
      → resumed it st.state st ≡ t
      → Gives t out
      → Gives st (c ∷ out)
  unfolding comment_strip_iterator_next
  emit st t c out cs e live y room run g =
      gives it st c out cs e live y room (subst (λ t. Gives t out) (sym run) g)

  pub Resumes-end : Resumes [] []
  unfolding goto_s0
  Resumes-end st a y =
      subst (λ t. Gives t [])
        (sym (resumed_s0-end it (it.left st.source) (record st { state = Label.s0 }) a))
        (Ends-stopped it (record st { ch = 0; state = Label.s0 }) a refl refl)

  pub Resumes-character :
      (c : ℕ) (cs out : Bytes)
      → is_ordinary c (head_of cs) ≡ true
      → length out ≤ length cs
      → Resumes cs out
      → Resumes (c ∷ cs) (c ∷ out)
  unfolding goto_s0 resumed
  Resumes-character c cs out v room ih st a (e, live, bound, y) =
      let t = record st { state = Label.s0 } in
      let ordinary : is_ordinary st.a (it.ch (it.next st.source)) ≡ true =
        rw (a, Yields-head it (it.next st.source) cs y) v in
      subst (λ t. Gives t (c ∷ out)) (sym (resumed_s0-ordinary it (it.left st.source) t ordinary))
        (emit (take it t) (goto_s0 it (take it t)) c out cs a live y room refl
          (ih (take it t) (Yields-head it (it.next st.source) cs y) y))

  -- What `resumed_s0` makes of an ordinary character, with any fuel that is left.
  resumed-ordinary :
      (fuel c : ℕ) (st : StripIterator S) (cs out : Bytes)
      → is_ordinary c (head_of cs) ≡ true
      → length out ≤ length cs
      → Resumes cs out
      → st.a ≡ c
      → st.state ≡ Label.s0
      → Yields it st.source (c ∷ cs)
      → Gives (resumed_s0 it (suc fuel) st) (c ∷ out)
  unfolding resumed
  resumed-ordinary fuel c st cs out v room ih a zero_state (e, live, bound, y) =
      let ordinary : is_ordinary st.a (it.ch (it.next st.source)) ≡ true =
        rw (a, Yields-head it (it.next st.source) cs y) v in
      subst (λ t. Gives t (c ∷ out)) (sym (resumed_s0-ordinary it fuel st ordinary))
        (emit (take it st) (goto_s0 it (take it st)) c out cs a live y room
          (ap (λ l. resumed it l (take it st)) zero_state)
          (ih (take it st) (Yields-head it (it.next st.source) cs y) y))

  positive : (n : ℕ) → 0 < n → (k : ℕ) × (n ≡ suc k)
  positive zero h = absurd (omega arith)
  positive (suc k) h = (k, refl)

  -- A line comment is skipped; the line feed behind it is an ordinary character.
  line-Gives :
      (fuel : ℕ) (st : StripIterator S) (body cs out : Bytes)
      → in_line body ≡ true
      → length out ≤ length cs
      → Resumes cs out
      → st.a ≡ b'/'
      → Yields it (it.next st.source) (b'/' ∷ (body ++ b'\n' ∷ cs))
      → Gives (resumed_s0 it (suc (suc fuel)) st) (b'\n' ∷ out)
  unfolding skip_line
  line-Gives fuel st body cs out v room ih a (f, live', bound', y) =
      let (t, run, at, y') =
        skip_line-on it (suc (it.left (it.next st.source))) (take it st) (b'/' ∷ body) cs
          (omega (arith, bound', length-append body (b'\n' ∷ cs))) v f (f, live', bound', y) in
      subst (λ t. Gives t (b'\n' ∷ out)) (sym (resumed_s0-line it (suc fuel) st a f))
        (subst (λ t. Gives (resumed_s0 it (suc fuel) (record t { state = Label.s0 })) (b'\n' ∷ out))
          (sym run)
          (resumed-ordinary fuel b'\n' (record t { state = Label.s0 }) cs out refl room ih at refl
            y'))

  pub Resumes-line :
      (body cs out : Bytes)
      → in_line body ≡ true
      → length out ≤ length cs
      → Resumes cs out
      → Resumes (b'/' ∷ b'/' ∷ (body ++ b'\n' ∷ cs)) (b'\n' ∷ out)
  unfolding goto_s0
  Resumes-line body cs out v room ih st a (e, live, bound, y) =
      let z = record st { state = Label.s0 } in
      let (k, enough) = positive (it.left st.source) (omega (arith, bound)) in
      subst (λ n. Gives (resumed_s0 it (suc n) z) (b'\n' ∷ out)) (sym enough)
        (line-Gives k z body cs out v room ih a y)

  -- The loop over a block comment, its first character in `ch`.
  skip_comment_lem :
      (st : StripIterator S) (body cs : Bytes)
      → in_block body ≡ true
      → st.ch ≡ head_of (body ++ b'*' ∷ b'/' ∷ cs)
      → st.a ≡ it.ch st.source
      → (s : S) → st.source ≡ it.next s
      → Yields it s (body ++ b'*' ∷ b'/' ∷ cs)
      → (t : StripIterator S) × (skip_comment it st ≡ t)
        × (t.ch ≡ b'*')
        × Yields it t.source (b'/' ∷ cs)
  unfolding skip_comment
  skip_comment_lem st [] cs v c a s e (f, live, bound, y) =
      let y' : Yields it st.source (b'/' ∷ cs) = subst (λ s. Yields it s (b'/' ∷ cs)) (sym e) y in
      (
        st,
        while_do_stop (comment_test it) (along it) (suc (suc (it.left st.source))) st
            (rw (c, a ∙ y'.0) refl),
        c,
        y',
      )
  skip_comment_lem st (d ∷ body) cs v c a s e (f, live, bound, y) =
      let rest = body ++ b'*' ∷ b'/' ∷ cs in
      let y' : Yields it st.source rest = subst (λ s. Yields it s rest) (sym e) y in
      skip_comment-on it (suc (suc (it.left st.source))) st d body cs
        (omega (arith, Yields-left it st.source rest y', length-append body (b'*' ∷ b'/' ∷ cs))) v c
        (a ∙ Yields-head it st.source rest y') y'

  -- Behind the space that stands for a block comment.
  comment-Gives :
      (st : StripIterator S) (body cs out : Bytes)
      → in_block body ≡ true
      → Resumes cs out
      → Yields it (it.next st.source) (body ++ b'*' ∷ b'/' ∷ cs)
      → Gives (resumed_s1 it st) out
  unfolding resumed_s1
  comment-Gives st body cs out v ih y =
      let s = it.next st.source in
      let u = look it (record st { ch = it.ch s; source = s }) in
      let (t, run, at, (e, live, bound, y')) =
        skip_comment_lem u body cs v (Yields-head it s _ y) refl s refl y in
      let on : (t.ch == 0) ≡ false = rw at refl in
      subst (λ t. Gives (goto_s0 it (if t.ch == 0 then t else advance_behind it t)) out) (sym run)
        (rw on (ih (advance_behind it t) (Yields-head it (it.next t.source) cs y') y'))

  pub Resumes-block :
      (body cs out : Bytes)
      → in_block body ≡ true
      → length out ≤ length cs
      → Resumes cs out
      → Resumes (b'/' ∷ b'*' ∷ (body ++ b'*' ∷ b'/' ∷ cs)) (b' ' ∷ out)
  unfolding goto_s0 resumed
  Resumes-block body cs out v room ih st a (e, live, bound, (f, live', bound', y)) =
      let z = record st { state = Label.s0 } in
      let t₀ = record (take it z) { ch = b' '; state = Label.s1 } in
      subst (λ t. Gives t (b' ' ∷ out)) (sym (resumed_s0-block it (it.left st.source) z a f))
        (emit t₀ (resumed_s1 it t₀) b' ' out (b'*' ∷ (body ++ b'*' ∷ b'/' ∷ cs)) refl (λ e. cc)
          (f, live', bound', y) (omega (arith, length-append body (b'*' ∷ b'/' ∷ cs))) refl
          (comment-Gives t₀ body cs out v ih y))
