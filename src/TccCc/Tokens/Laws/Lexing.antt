-- ===== src/TccCc/Tokens/Laws/Lexing.antt =====
-- One token: the branch that is taken, and the white space in front.
use mes_replacement.Prelude.{
  and-left, and-right, ℕ, ◌≡◌, refl, ap, ◌∙◌, List, [], ◌∷◌, ◌++◌, Option, some, Bool, true, false,
  not, ◌&&◌, ◌||◌, inl, inr, arith, ◌==◌, leb, Bool-cases, length, Bytes, same_text, same_text_iff,
  is_digit, is_ident_start, is_ident_char,
}
use mes_replacement.TccCc.Chars.{CharIterator, Yields}
use mes_replacement.TccCc.Chars.Strip.Laws.{Yields-head}
use mes_replacement.TccCc.Chars.Strip.Pieces.{head_of}
use mes_replacement.TccCc.Tokens.{Tokenizer, is_white}
use mes_replacement.TccCc.Tokens.Words.{max_token_len}
use mes_replacement.TccCc.Tokens.Operators.{operator}
use mes_replacement.TccCc.Tokens.Next.{other_line, token_at, tokenizer_next}
use mes_replacement.TccCc.Tokens.Scan.{all_of, tokenizer_skip_white_space-text}
use mes_replacement.TccCc.Tokens.Lexemes.{
  Numeral, decimal_digits, octal_digits, hex_digits, Suffix, Lexeme, word, numeral, symbol, single,
  quoted, text_literal, spelling, kind_of_lexeme, text_of, is_entry, operators, spells, is_visible,
  is_sign, is_single, in_numeral, in_text, is_lexeme, stops,
}
use mes_replacement.TccCc.Tokens.Laws.Symbols.{symbol-Takes}
use mes_replacement.TccCc.Tokens.Laws.Names.{name-text, number-text}
use mes_replacement.TccCc.Tokens.Laws.Literals.{character_literal-text, string-text}
use mes_replacement.TccCc.Tokens.Laws.Branches.{
  sign-branch, word-branch, number-branch, quote-branch, double-branch,
}

of_not : (b : Bool) → not b ≡ true → b ≡ false
of_not true h = absurd (ground (arith, h))
of_not false h = refl

single-is_sign : (c : ℕ) → is_single c ≡ true → is_sign c ≡ true
single-is_sign c v = and-left (is_sign c) _ v

pub visible-live : (c : ℕ) → is_visible c ≡ true → (c == 0) ≡ false
visible-live c h = ground (arith, h)

pub single-visible : (c : ℕ) → is_single c ≡ true → is_visible c ≡ true
single-visible c v = and-left (is_visible c) _ (single-is_sign c v)

abbrev heads : (ℕ → Bool) → List (Bytes × ℕ) → Bool
heads test [] = true
heads test ((cs, k) ∷ table) = test (head_of cs) && heads test table

is_entry-heads :
    (test : ℕ → Bool) (table : List (Bytes × ℕ)) (cs : Bytes) (kind : ℕ)
    → heads test table ≡ true
    → is_entry table cs kind ≡ true
    → test (head_of cs) ≡ true
is_entry-heads test [] cs kind h v = absurd (ground (arith, v))
is_entry-heads test ((ds, k) ∷ table) cs kind h v =
    elim (Bool-cases (same_text ds cs && k == kind)) [
      | inl e ↦
          let same : ds ≡ cs = (same_text_iff ds cs).0 (ground (arith, e)) in
          rw⁻¹ same (ground (arith, h))
      | inr other ↦ is_entry-heads test table cs kind (ground (arith, h)) (ground (arith, other, v))
    ]

symbol-is_sign :
    (cs : Bytes) (kind : ℕ) → is_entry operators cs kind ≡ true → is_sign (head_of cs) ≡ true
unfolding is_ident_char is_ident_start is_digit
symbol-is_sign cs kind v = is_entry-heads is_sign operators cs kind refl v

module _ {S : Type 0} (it : CharIterator S) where
  -- What a state becomes that takes the lexeme.
  abbrev TakesLexeme : Lexeme → Bytes → Tokenizer S → Option (Tokenizer S) → Type 0
  TakesLexeme l rest t r =
      (s : S) × (r ≡ some (record t { kind = kind_of_lexeme l; token = text_of l; chars = s }))
      × Yields it s rest

  numeral-digit :
      (n : Numeral) (x : Suffix) (rest : Bytes) (t : Tokenizer S)
      → in_numeral n ≡ true
      → Yields it t.chars (spelling (numeral n x) ++ rest)
      → is_digit (it.ch t.chars) ≡ true
  unfolding is_digit
  numeral-digit (decimal_digits c ds) x rest t v y = rw (y.0) (ground (arith, v))
  numeral-digit (octal_digits ds) x rest t v y = rw (y.0) refl
  numeral-digit (hex_digits ds) x rest t v y = rw (y.0) refl

  symbol-sign :
      (cs : Bytes) (kind : ℕ) (rest : Bytes) (t : Tokenizer S)
      → is_entry operators cs kind ≡ true
      → Yields it t.chars (cs ++ rest)
      → is_sign (it.ch t.chars) ≡ true
  symbol-sign [] kind rest t v y = absurd (ground (arith, symbol-is_sign [] kind v))
  symbol-sign (c ∷ cs) kind rest t v y = rw (y.0) (symbol-is_sign (c ∷ cs) kind v)

  single-operator :
      (t : Tokenizer S) (c : ℕ)
      → t.token ≡ []
      → is_single c ≡ true
      → it.ch t.chars ≡ c
      → operator it t ≡ record t { kind = c; token = c ∷ []; chars = it.next t.chars }
  unfolding operator
  single-operator t c empty v e =
      let hash : (c == b'#') ≡ false = ground (arith, v) in
      let equal : (c == b'=') ≡ false = ground (arith, v) in
      let times : (c == b'*' || (c == b'/' || (c == b'%' || c == b'^'))) ≡ false =
        ground (arith, v) in
      let minus : (c == b'-') ≡ false = ground (arith, v) in
      let plus : (c == b'+') ≡ false = ground (arith, v) in
      let less : (c == b'<' || (c == b'>' || (c == b'|' || c == b'&'))) ≡ false =
        ground (arith, v) in
      let bang : (c == b'!') ≡ false = ground (arith, v) in
      let period : (c == b'.') ≡ false = ground (arith, v) in
      rw (e, hash, equal, times, minus, plus, less, bang, period, empty) refl

  token_at-text :
      (start : Bool) (t : Tokenizer S) (l : Lexeme) (rest : Bytes)
      → t.token ≡ []
      → is_lexeme l ≡ true
      → stops l (head_of rest) ≡ true
      → Yields it t.chars (spelling l ++ rest)
      → TakesLexeme l rest t (token_at it start t)
  token_at-text start t (word c cs) rest empty v h y =
      let (s, run, z) =
        name-text it t c cs rest empty (and-right (is_ident_start c) (all_of is_ident_char cs) v)
          (ground (arith, h)) y in
      let at : is_ident_start (it.ch t.chars) ≡ true =
        rw (y.0) (and-left (is_ident_start c) (all_of is_ident_char cs) v) in
      (s, word-branch it start t at ∙ ap some run, z)
  token_at-text start t (numeral n x) rest empty v h y =
      let (s, run, z) = number-text it t n x rest empty v h y in
      (s, number-branch it start t (numeral-digit n x rest t v y) ∙ ap some run, z)
  token_at-text start t (symbol cs kind) rest empty v h y =
      let (s, run, z) =
        symbol-Takes it cs kind v t rest empty
          (of_not (spells operators (cs ++ head_of rest ∷ [])) h) y in
      (s, sign-branch it start t (symbol-sign cs kind rest t v y) ∙ ap some run, z)
  token_at-text start t (single c) rest empty v h (e, l, b, y) =
      let at : is_sign (it.ch t.chars) ≡ true = rw e (single-is_sign c v) in
      (it.next t.chars, sign-branch it start t at ∙ ap some (single-operator t c empty v e), y)
  token_at-text start t (quoted i) rest empty v h y =
      let (s, run, z) = character_literal-text it t i rest v y in
      (s, quote-branch it start t (y.0) ∙ ap some run, z)
  token_at-text start t (text_literal is) rest empty v h y =
      let (s, run, z) =
        string-text it t is rest empty
          (ground (arith, and-left (leb (length is) max_token_len) (in_text is) v))
          (and-right (leb (length is) max_token_len) (in_text is) v) y in
      (s, double-branch it start t (y.0) ∙ run, z)

  -- The first character of a lexeme is no white space.
  head-visible :
      (l : Lexeme) (skip_nl : Bool) (rest : Bytes)
      → is_lexeme l ≡ true
      → is_visible (head_of (spelling l ++ rest)) ≡ true
  unfolding is_ident_start is_digit
  head-visible (word c cs) nl rest v =
      ground (arith, and-left (is_ident_start c) (all_of is_ident_char cs) v)
  head-visible (numeral (decimal_digits c ds) x) nl rest v = ground (arith, v)
  head-visible (numeral (octal_digits ds) x) nl rest v = refl
  head-visible (numeral (hex_digits ds) x) nl rest v = refl
  head-visible (symbol [] kind) nl rest v = absurd (ground (arith, symbol-is_sign [] kind v))
  head-visible (symbol (c ∷ cs) kind) nl rest v =
      and-left (is_visible c) _ (symbol-is_sign (c ∷ cs) kind v)
  head-visible (single c) nl rest v = single-visible c v
  head-visible (quoted i) nl rest v = refl
  head-visible (text_literal is) nl rest v = refl

  visible-not_white : (nl : Bool) (c : ℕ) → is_visible c ≡ true → is_white nl c ≡ false
  visible-not_white nl c h = ground (arith, h)

  -- The next token is the lexeme, and `rest` is what is left.
  abbrev pub Reads : Bool → Tokenizer S → Lexeme → Bytes → Type 0
  Reads skip_nl t l rest =
      (u : Tokenizer S) × (tokenizer_next it skip_nl t ≡ some u)
      × (u.kind ≡ kind_of_lexeme l)
      × (u.token ≡ text_of l)
      × Yields it u.chars rest

  -- On white space, the spelling of a lexeme and a character that does not belong to it, the tokenizer
  -- gives the kind and the text of the lexeme and stops behind the spelling, at the start of a line or
  -- not.
  pub tokenizer_next-Reads :
      (skip_nl : Bool) (t : Tokenizer S) (gap : Bytes) (l : Lexeme) (rest : Bytes)
      → all_of (is_white skip_nl) gap ≡ true
      → is_lexeme l ≡ true
      → stops l (head_of rest) ≡ true
      → Yields it t.chars (gap ++ (spelling l ++ rest))
      → Reads skip_nl t l rest
  unfolding tokenizer_next
  tokenizer_next-Reads nl t gap l rest white v h y =
      let visible = head-visible l nl rest v in
      let (s, skipped, z) =
        tokenizer_skip_white_space-text it nl t gap (spelling l ++ rest) white
          (visible-not_white nl (head_of (spelling l ++ rest)) visible) y in
      let live : (it.ch s == 0) ≡ false = rw (Yields-head it s _ z) (visible-live _ visible) in
      let p = it.place s in
      let start = record t {
        kind = 0;
        token = [];
        chars = s;
        filename = some (p.filename);
        line = p.line;
        column = p.column;
      } in
      let (s', run, z') = token_at-text (other_line t.filename t.line p) start l rest refl v h z in
      (
        record start { kind = kind_of_lexeme l; token = text_of l; chars = s' },
        rw (skipped, live) run,
        refl,
        refl,
        z',
      )
