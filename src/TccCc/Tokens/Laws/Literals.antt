-- ===== src/TccCc/Tokens/Laws/Literals.antt =====
-- The branches for character literals and string literals.
use mes_replacement.Prelude.{
  ℕ, zero, suc, ◌+◌, ◌≤◌, ◌<◌, ◌≡◌, refl, ap, ◌∙◌, subst, List, [], ◌∷◌, ◌++◌, append_assoc,
  append-nil, some, true, false, ◌||◌, arith, ◌==◌, length, length-append, Bytes,
}
use mes_replacement.TccCc.Chars.{CharIterator, Yields}
use mes_replacement.TccCc.Chars.Strip.Laws.{Yields-head, Yields-left}
use mes_replacement.TccCc.Chars.Strip.Pieces.{Item, plain, escaped, item_text, items_text, head_of}
use mes_replacement.TccCc.Tokens.{Tokenizer, pass}
use mes_replacement.TccCc.Tokens.Escapes.{tokenizer_parse_char_literal}
use mes_replacement.TccCc.Tokens.Words.{
  character_literal, string_items, string, goes_on, max_token_len,
}
use mes_replacement.TccCc.Tokens.Lexemes.{item_value, items_value, is_simple, in_text}

module _ {S : Type 0} (it : CharIterator S) where
  item-text :
      (t : Tokenizer S) (i : Item) (rest : Bytes)
      → is_simple i ≡ true
      → Yields it t.chars (item_text i ++ rest)
      → (s : S) × (tokenizer_parse_char_literal it t ≡ (item_value i, record t { chars = s }))
        × Yields it s rest
  unfolding tokenizer_parse_char_literal
  item-text t (plain c) rest v (e, l, b, y) =
      let other : (it.ch t.chars == b'\\') ≡ false = rw e (ground (arith, v)) in
      (it.next t.chars, rw (other, e) refl, y)
  item-text t (escaped c) rest v (e, l, b, (f, m, k, y)) =
      let octal : (c == b'0' || c == b'1') ≡ false = ground (arith, v) in
      let hex : (c == b'x') ≡ false = ground (arith, v) in
      (it.next (it.next t.chars), rw (e, f, octal, hex) refl, y)

  pub character_literal-text :
      (t : Tokenizer S) (i : Item) (rest : Bytes)
      → is_simple i ≡ true
      → Yields it t.chars ((b'\'' ∷ (item_text i ++ b'\'' ∷ [])) ++ rest)
      → (s : S) × (character_literal it t
          ≡ record t { kind = b'\''; token = item_value i ∷ []; chars = s })
        × Yields it s rest
  unfolding character_literal
  character_literal-text t i rest v (e, l, b, y) =
      let y' =
        subst (Yields it (it.next t.chars)) (append_assoc (item_text i) (b'\'' ∷ []) rest) y in
      let (s, run, (f, m, k, z)) =
        item-text (record (pass it t) { kind = b'\'' }) i (b'\'' ∷ rest) v y' in
      (it.next s, rw (run, f) refl, z)

  items_text-append :
      (is : List Item) (rest : Bytes)
      → items_text is (b'"' ∷ []) ++ rest ≡ items_text is (b'"' ∷ rest)
  items_text-append [] rest = refl
  items_text-append (i ∷ is) rest =
      append_assoc (item_text i) (items_text is (b'"' ∷ [])) rest
      ∙ ap (λ x. item_text i ++ x) (items_text-append is rest)

  simple-goes_on :
      (i : Item) (is : List Item) (rest : Bytes)
      → in_text (i ∷ is) ≡ true
      → goes_on it (head_of (item_text i ++ rest)) ≡ true
  simple-goes_on (plain c) is rest v = ground (arith, v)
  simple-goes_on (escaped c) is rest v = refl

  in_text-simple : (i : Item) (is : List Item) → in_text (i ∷ is) ≡ true → is_simple i ≡ true
  in_text-simple (plain c) is v = ground (arith, v)
  in_text-simple (escaped c) is v = ground (arith, v)

  in_text-rest : (i : Item) (is : List Item) → in_text (i ∷ is) ≡ true → in_text is ≡ true
  in_text-rest (plain c) is v = ground (arith, v)
  in_text-rest (escaped c) is v = ground (arith, v)

  -- The loop over a string literal stops at the quote that ends it, if there is room for it.
  string_items-text :
      (fuel : ℕ) (t : Tokenizer S) (is : List Item) (rest : Bytes)
      → length is < fuel
      → length t.token + length is ≤ max_token_len
      → in_text is ≡ true
      → Yields it t.chars (items_text is (b'"' ∷ rest))
      → (s : S) × (string_items it fuel t
          ≡ some (record t { token = t.token ++ items_value is; chars = s }))
        × Yields it s (b'"' ∷ rest)
  unfolding string_items
  string_items-text zero t is rest h room v y = absurd (omega (arith, h))
  string_items-text (suc fuel) t [] rest h room v (e, l, b, y) =
      (t.chars, rw (e, append-nil t.token) refl, (e, l, b, y))
  string_items-text (suc fuel) t (i ∷ is) rest h room v y =
      let start = it.ch t.chars in
      let on : goes_on it (it.ch t.chars) ≡ true =
        rw (Yields-head it t.chars _ y) (simple-goes_on i is _ v) in
      let (s, run, z) = item-text t i _ (in_text-simple i is v) y in
      let fits : (length t.token == max_token_len) ≡ false = ground (arith, room) in
      let grown = record t { token = t.token ++ item_value i ∷ []; chars = s } in
      let (s', run', z') =
        string_items-text fuel grown is rest (omega (arith, h))
          (omega (arith, room, length-append t.token (item_value i ∷ []))) (in_text-rest i is v)
          z in
      (
        s',
        rw (run, on, fits)
            (run'
              ∙ ap (λ w. some (record t { token = w; chars = s' }))
                  (append_assoc t.token (item_value i ∷ []) (items_value is))),
        z',
      )

  length-items_text : (is : List Item) (rest : Bytes) → length is ≤ length (items_text is rest)
  length-items_text [] rest = omega arith
  length-items_text (plain c ∷ is) rest = omega (arith, length-items_text is rest)
  length-items_text (escaped c ∷ is) rest = omega (arith, length-items_text is rest)

  pub string-text :
      (t : Tokenizer S) (is : List Item) (rest : Bytes)
      → t.token ≡ []
      → length is ≤ max_token_len
      → in_text is ≡ true
      → Yields it t.chars ((b'"' ∷ items_text is (b'"' ∷ [])) ++ rest)
      → (s : S) × (string it t ≡ some (record t { kind = b'"'; token = items_value is; chars = s }))
        × Yields it s rest
  unfolding string
  string-text t is rest empty fits v (e, l, b, y) =
      let y' = subst (Yields it (it.next t.chars)) (items_text-append is rest) y in
      let start = record (pass it t) { kind = b'"' } in
      let (s, run, (f, m, k, z)) =
        string_items-text (suc (it.left start.chars)) start is rest
          (omega (arith, length-items_text is (b'"' ∷ rest), Yields-left it start.chars _ y'))
          (rw empty (omega (arith, fits))) v y' in
      (it.next s, rw (string, run, f, empty) refl, z)
