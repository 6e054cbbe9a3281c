-- ===== src/TccCc/Chars/Strip/Literals.antt =====
-- The coroutine inside string and character literals, and over a whole text.
use mes_replacement.Prelude.{
  ℕ, ◌≤◌, ◌≡◌, ◌≢◌, refl, sym, ap, ◌∙◌, subst, List, [], ◌∷◌, ◌++◌, true, not, ◌&&◌, arith, ◌==◌,
  length, Bytes,
}
use mes_replacement.TccCc.Chars.{CharIterator, Yields}
use mes_replacement.TccCc.Chars.Strip.{
  Label, StripIterator, take, advance, advance_behind, goto_s0, in_string, enter, in_char,
  behind_char, resumed, comment_strip_iterator_next, new_comment_strip_iterator, strip_iterator,
}
use mes_replacement.TccCc.Chars.Strip.Pieces.{
  Item, plain, escaped, Piece, character, line_comment, block_comment, string_literal, char_literal,
  item_text, items_text, text, stripped, in_literal, in_string_literal, is_valid, items_text-length,
  length-stripped,
}
use mes_replacement.TccCc.Chars.Strip.Laws.{Yields-head, resumed_s0-string, resumed_s0-char}
use mes_replacement.TccCc.Chars.Strip.Text.{
  Gives, Resumes, emit, Resumes-end, Resumes-character, Resumes-line, Resumes-block,
}

module _ {S : Type 0} (it : CharIterator S) where
  in_string-quote :
      (st : StripIterator S) → st.ch ≡ b'"' → in_string it st ≡ record st { state = Label.s5 }
  unfolding in_string
  in_string-quote st e = rw e refl

  in_string-escape :
      (st : StripIterator S) → st.ch ≡ b'\\' → in_string it st ≡ record st { state = Label.s3 }
  unfolding in_string
  in_string-escape st e = rw e refl

  in_string-plain :
      (st : StripIterator S) (c : ℕ)
      → st.ch ≡ c
      → not (c == b'"') && (not (c == 0) && not (c == b'\\')) ≡ true
      → in_string it st ≡ record st { state = Label.s4 }
  unfolding in_string
  in_string-plain st c e v = ground arith

  -- The closing quote of a literal, and what the text behind it leads to.
  close-Gives :
      (st : StripIterator S) (q : ℕ) (cs out : Bytes)
      → st.ch ≡ q
      → q ≢ 0
      → resumed it st.state st ≡ goto_s0 it (advance_behind it st)
      → length out ≤ length cs
      → Resumes it cs out
      → Yields it st.source (q ∷ cs)
      → Gives it st (q ∷ out)
  close-Gives st q cs out e live run room ih (f, live', bound, y) =
      emit it st (goto_s0 it (advance_behind it st)) q out (q ∷ cs) e live (f, live', bound, y)
        (omega arith) run (ih (advance_behind it st) (Yields-head it (it.next st.source) cs y) y)

  string-Gives :
      (is : List Item) (st : StripIterator S) (cs out : Bytes)
      → in_string_literal is ≡ true
      → length out ≤ length cs
      → Resumes it cs out
      → st.ch ≡ it.ch st.source
      → Yields it st.source (items_text is (b'"' ∷ cs))
      → Gives it (in_string it st) (items_text is (b'"' ∷ out))
  unfolding resumed
  string-Gives [] st cs out v room ih c (e, live, bound, y) =
      subst (λ t. Gives it t (b'"' ∷ out)) (sym (in_string-quote st (c ∙ e)))
        (close-Gives (record st { state = Label.s5 }) b'"' cs out (c ∙ e) live refl room ih
          (e, live, bound, y))
  string-Gives (plain d ∷ is) st cs out v room ih c (e, live, bound, y) =
      let rest = items_text is (b'"' ∷ cs) in
      let behind : length (b'"' ∷ out) ≤ length (b'"' ∷ cs) = omega (arith, room) in
      let u = record st { state = Label.s4 } in
      subst (λ t. Gives it t (d ∷ items_text is (b'"' ∷ out)))
        (sym (in_string-plain st d (c ∙ e) (ground arith)))
        (emit it u (in_string it (advance it u)) d (items_text is (b'"' ∷ out)) (d ∷ rest) (c ∙ e)
          live (e, live, bound, y)
          (omega (arith, items_text-length is (b'"' ∷ out) (b'"' ∷ cs) behind)) refl
          (string-Gives is (advance it u) cs out (ground arith) room ih refl y))
  string-Gives (escaped d ∷ is) st cs out v room ih c (e, live, bound, (f, live', bound', y)) =
      let rest = items_text is (b'"' ∷ cs) in
      let behind : length (b'"' ∷ out) ≤ length (b'"' ∷ cs) = omega (arith, room) in
      let le = items_text-length is (b'"' ∷ out) (b'"' ∷ cs) behind in
      let u = record st { state = Label.s3 } in
      let w = record (advance it u) { state = Label.s4 } in
      subst (λ t. Gives it t (b'\\' ∷ d ∷ items_text is (b'"' ∷ out)))
        (sym (in_string-escape st (c ∙ e)))
        (emit it u w b'\\' (d ∷ items_text is (b'"' ∷ out)) (b'\\' ∷ d ∷ rest) (c ∙ e) live
          (e, live, bound, (f, live', bound', y)) (omega (arith, le)) refl
          (emit it w (in_string it (advance it w)) d (items_text is (b'"' ∷ out)) (d ∷ rest) f live'
            (f, live', bound', y) (omega (arith, le)) refl
            (string-Gives is (advance it w) cs out (ground arith) room ih refl y)))

  Resumes-string :
      (is : List Item) (cs out : Bytes)
      → in_string_literal is ≡ true
      → length out ≤ length cs
      → Resumes it cs out
      → Resumes it (b'"' ∷ items_text is (b'"' ∷ cs)) (b'"' ∷ items_text is (b'"' ∷ out))
  unfolding goto_s0 resumed
  Resumes-string is cs out v room ih st a (e, live, bound, y) =
      let rest = items_text is (b'"' ∷ cs) in
      let behind : length (b'"' ∷ out) ≤ length (b'"' ∷ cs) = omega (arith, room) in
      let z = record st { state = Label.s0 } in
      let u = record (take it z) { state = Label.s2 } in
      subst (λ t. Gives it t (b'"' ∷ items_text is (b'"' ∷ out)))
        (sym (resumed_s0-string it (it.left st.source) z a))
        (emit it u (in_string it (enter it u)) b'"' (items_text is (b'"' ∷ out)) rest a live y
          (items_text-length is (b'"' ∷ out) (b'"' ∷ cs) behind) refl
          (string-Gives is (enter it u) cs out v room ih refl y))

  in_char-plain :
      (st : StripIterator S) (c : ℕ)
      → st.ch ≡ c
      → not (c == 0) && not (c == b'\\') ≡ true
      → in_char it st ≡ record st { state = Label.s8 }
  unfolding in_char
  in_char-plain st c e v = ground arith

  in_char-escape :
      (st : StripIterator S) → st.ch ≡ b'\\' → in_char it st ≡ record st { state = Label.s7 }
  unfolding in_char
  in_char-escape st e = rw e refl

  -- Behind the character of a literal stands its closing quote.
  char_end-Gives :
      (st : StripIterator S) (d : ℕ) (cs out : Bytes)
      → st.ch ≡ d
      → st.state ≡ Label.s8
      → length out ≤ length cs
      → Resumes it cs out
      → Yields it st.source (d ∷ b'\'' ∷ cs)
      → Gives it st (d ∷ b'\'' ∷ out)
  unfolding resumed behind_char
  char_end-Gives st d cs out e at room ih (f, live, bound, (g, live', bound', y)) =
      let u = record (advance it st) { state = Label.s9 } in
      emit it st u d (b'\'' ∷ out) (d ∷ b'\'' ∷ cs) e live (f, live, bound, (g, live', bound', y))
        (omega (arith, room)) (ap (λ l. resumed it l st) at ∙ rw g refl)
        (close-Gives u b'\'' cs out g live' refl room ih (g, live', bound', y))

  char-Gives :
      (i : Item) (st : StripIterator S) (cs out : Bytes)
      → in_literal i ≡ true
      → length out ≤ length cs
      → Resumes it cs out
      → st.ch ≡ it.ch st.source
      → Yields it st.source (item_text i ++ b'\'' ∷ cs)
      → Gives it (in_char it st) (item_text i ++ b'\'' ∷ out)
  unfolding resumed
  char-Gives (plain d) st cs out v room ih c (e, live, bound, y) =
      subst (λ t. Gives it t (d ∷ b'\'' ∷ out)) (sym (in_char-plain st d (c ∙ e) v))
        (char_end-Gives (record st { state = Label.s8 }) d cs out (c ∙ e) refl room ih
          (e, live, bound, y))
  char-Gives (escaped d) st cs out v room ih c (e, live, bound, y) =
      let u = record st { state = Label.s7 } in
      let w = record (advance it u) { state = Label.s8 } in
      subst (λ t. Gives it t (b'\\' ∷ d ∷ b'\'' ∷ out)) (sym (in_char-escape st (c ∙ e)))
        (emit it u w b'\\' (d ∷ b'\'' ∷ out) (b'\\' ∷ d ∷ b'\'' ∷ cs) (c ∙ e) live
          (e, live, bound, y) (omega (arith, room)) refl
          (char_end-Gives w d cs out y.0 refl room ih y))

  item-room :
      (i : Item) (cs out : Bytes)
      → length out ≤ length cs
      → length (item_text i ++ b'\'' ∷ out) ≤ length (item_text i ++ b'\'' ∷ cs)
  item-room (plain d) cs out h = omega arith
  item-room (escaped d) cs out h = omega arith

  Resumes-char :
      (i : Item) (cs out : Bytes)
      → in_literal i ≡ true
      → length out ≤ length cs
      → Resumes it cs out
      → Resumes it (b'\'' ∷ (item_text i ++ b'\'' ∷ cs)) (b'\'' ∷ (item_text i ++ b'\'' ∷ out))
  unfolding goto_s0 resumed
  Resumes-char i cs out v room ih st a (e, live, bound, y) =
      let z = record st { state = Label.s0 } in
      let u = record (take it z) { state = Label.s6 } in
      subst (λ t. Gives it t (b'\'' ∷ (item_text i ++ b'\'' ∷ out)))
        (sym (resumed_s0-char it (it.left st.source) z a))
        (emit it u (in_char it (enter it u)) b'\'' (item_text i ++ b'\'' ∷ out)
          (item_text i ++ b'\'' ∷ cs) a live y (item-room i cs out room) refl
          (char-Gives i (enter it u) cs out v room ih refl y))

  Resumes-text : (ps : List Piece) → is_valid ps ≡ true → Resumes it (text ps) (stripped ps)
  Resumes-text [] v = Resumes-end it
  Resumes-text (character c ∷ ps) v =
      Resumes-character it c (text ps) (stripped ps) (ground arith) (length-stripped ps)
        (Resumes-text ps (ground arith))
  Resumes-text (line_comment body ∷ ps) v =
      Resumes-line it body (text ps) (stripped ps) (ground arith) (length-stripped ps)
        (Resumes-text ps (ground arith))
  Resumes-text (block_comment body ∷ ps) v =
      Resumes-block it body (text ps) (stripped ps) (ground arith) (length-stripped ps)
        (Resumes-text ps (ground arith))
  Resumes-text (string_literal is ∷ ps) v =
      Resumes-string is (text ps) (stripped ps) (ground arith) (length-stripped ps)
        (Resumes-text ps (ground arith))
  Resumes-text (char_literal i ∷ ps) v =
      Resumes-char i (text ps) (stripped ps) (ground arith) (length-stripped ps)
        (Resumes-text ps (ground arith))

  -- Over a source whose characters are the text of valid pieces, the comment strip iterator gives the
  -- pieces with a line feed for each line comment and a space for each other comment, and nothing
  -- else changed.
  pub new_comment_strip_iterator-Yields :
      (s : S) (ps : List Piece)
      → is_valid ps ≡ true
      → Yields it s (text ps)
      → Yields (strip_iterator it) (new_comment_strip_iterator it s) (stripped ps)
  unfolding new_comment_strip_iterator comment_strip_iterator_next resumed
  new_comment_strip_iterator-Yields s ps v y =
      Resumes-text ps v
        (record { ch = 0; place = it.place s; source = s; a = it.ch s; state = Label.s0 })
        (Yields-head it s (text ps) y) y
