-- ===== src/TccCc/Tokens/Laws/Names.antt =====
-- The branches for names and numbers.
use mes_replacement.Prelude.{
  ℕ, zero, suc, ◌≡◌, refl, sym, ap, ◌∙◌, subst, [], ◌∷◌, ◌++◌, append_assoc, is_digit, is_octal,
  is_ident_char, replicate, true, false, not, ◌&&◌, arith, ◌==◌, if◌then◌else◌, Bytes,
}
use mes_replacement.TccCc.Chars.{CharIterator, Yields}
use mes_replacement.TccCc.Chars.Strip.Laws.{Yields-head}
use mes_replacement.TccCc.Chars.Strip.Pieces.{head_of}
use mes_replacement.TccCc.Tokens.{Tokenizer, put, put_while}
use mes_replacement.TccCc.Tokens.Kinds.{kind_of, keywords}
use mes_replacement.TccCc.Tokens.Words.{name, number_digits, number, is_hex}
use mes_replacement.TccCc.Tokens.Scan.{all_of, put_while-text}
use mes_replacement.TccCc.Tokens.Lexemes.{
  Numeral, decimal_digits, octal_digits, hex_digits, Suffix, suffix, numeral_text, suffix_text,
  in_numeral, numeral_stops,
}

module _ {S : Type 0} (it : CharIterator S) where
  -- The state behind `w`: only the text and the place have changed.
  abbrev pub Grows : Tokenizer S → Bytes → Tokenizer S → Bytes → Type 0
  Grows t w u rest = (s : S) × (u ≡ record t { token = t.token ++ w; chars = s }) × Yields it s rest

  pub put-text :
      (t : Tokenizer S) (c : ℕ) (rest : Bytes)
      → Yields it t.chars (c ∷ rest)
      → Grows t (c ∷ []) (put it t) rest
  put-text t c rest (e, l, b, y) = (it.next t.chars, rw e refl, y)

  -- A step behind another one.
  pub Grows-append :
      (t : Tokenizer S) (v w : Bytes) (f : Tokenizer S → Tokenizer S) (u : Tokenizer S)
      (mid rest : Bytes)
      → Grows t v u mid
      → ((r : Tokenizer S) → r ≡ u → Yields it r.chars mid → Grows r w (f r) rest)
      → Grows t (v ++ w) (f u) rest
  Grows-append t v w f u mid rest (s, e, y) next =
      let (s', e', y') = next (record t { token = t.token ++ v; chars = s }) (sym e) y in
      (
        s',
        ap f e ∙ e' ∙ ap (λ x. record t { token = x; chars = s' }) (append_assoc t.token v w),
        y',
      )

  pub name-text :
      (t : Tokenizer S) (c : ℕ) (cs rest : Bytes)
      → t.token ≡ []
      → all_of is_ident_char cs ≡ true
      → is_ident_char (head_of rest) ≡ false
      → Yields it t.chars (c ∷ cs ++ rest)
      → (s : S) × (name it t
          ≡ record t { kind = kind_of keywords b'i' (c ∷ cs); token = c ∷ cs; chars = s })
        × Yields it s rest
  unfolding name
  name-text t c cs rest empty v stop (e, l, b, y) =
      let (s, run, z) = put_while-text it is_ident_char (put it t) cs rest v stop y in
      (s, rw (run, empty, e) refl, z)

  digits-text :
      (t : Tokenizer S) (n : Numeral) (rest : Bytes)
      → in_numeral n ≡ true
      → numeral_stops n (head_of rest) ≡ true
      → Yields it t.chars (numeral_text n ++ rest)
      → Grows t (numeral_text n) (number_digits it t) rest
  unfolding number_digits
  digits-text t (decimal_digits c ds) rest v stop (e, l, b, y) =
      let digit : (it.ch t.chars == b'0') ≡ false = rw e (ground (arith, v)) in
      rw digit (
        put_while-text it is_digit t (c ∷ ds) rest (ground (arith, v)) (ground (arith, stop))
          (e, l, b, y))
  digits-text t (octal_digits []) rest v stop (e, l, b, y) =
      let f : (it.ch (it.next t.chars) == b'x') ≡ false =
        rw (Yields-head it (it.next t.chars) rest y) (ground (arith, stop)) in
      let at_zero : (it.ch t.chars == b'0') ≡ true = rw e refl in
      rw (at_zero, f)
        (Grows-append t (b'0' ∷ []) [] (put_while it is_octal) (put it t) rest rest
          (put-text t b'0' rest (e, l, b, y))
          (λ r _ z. put_while-text it is_octal r [] rest refl (ground (arith, stop)) z))
  digits-text t (octal_digits (d ∷ ds)) rest v stop (e, l, b, (g, m, k, y)) =
      let o : is_octal d ≡ true = ground (arith, v) in
      let f : (it.ch (it.next t.chars) == b'x') ≡ false = rw g (ground (arith, is_octal, o)) in
      let at_zero : (it.ch t.chars == b'0') ≡ true = rw e refl in
      rw (at_zero, f)
        (Grows-append t (b'0' ∷ []) (d ∷ ds) (put_while it is_octal) (put it t) (d ∷ ds ++ rest)
          rest (put-text t b'0' (d ∷ ds ++ rest) (e, l, b, (g, m, k, y)))
          (λ r _ z. put_while-text it is_octal r (d ∷ ds) rest v (ground (arith, stop)) z))
  digits-text t (hex_digits ds) rest v stop (e, l, b, (g, m, k, y)) =
      let at_zero : (it.ch t.chars == b'0') ≡ true = rw e refl in
      let x : (it.ch (it.next t.chars) == b'x') ≡ true = rw g refl in
      rw (at_zero, x)
        (Grows-append t (b'0' ∷ b'x' ∷ []) ds (put_while it is_hex) (put it (put it t)) (ds ++ rest)
          rest
          (Grows-append t (b'0' ∷ []) (b'x' ∷ []) (put it) (put it t) (b'x' ∷ ds ++ rest)
            (ds ++ rest) (put-text t b'0' (b'x' ∷ ds ++ rest) (e, l, b, (g, m, k, y)))
            (λ r _ z. put-text r b'x' (ds ++ rest) z))
          (λ r _ z. put_while-text it is_hex r ds rest v (ground (arith, stop)) z))

  replicate-all : (n : ℕ) → all_of (λ c. c == b'L') (replicate n b'L') ≡ true
  replicate-all zero = refl
  replicate-all (suc n) = replicate-all n

  suffix-text :
      (t : Tokenizer S) (x : Suffix) (rest : Bytes)
      → (head_of rest == b'U') ≡ false
      → (head_of rest == b'L') ≡ false
      → Yields it t.chars (suffix_text x ++ rest)
      → Grows t
          (suffix_text x)
          (put_while it (λ c. c == b'L') (if it.ch t.chars == b'U' then put it t else t))
          rest
  suffix-text t (suffix true n) rest no_u no_l (e, l, b, y) =
      let u : (it.ch t.chars == b'U') ≡ true = rw e refl in
      rw u (
        Grows-append t (b'U' ∷ []) (replicate n b'L') (put_while it (λ c. c == b'L')) (put it t)
          (replicate n b'L' ++ rest) rest (put-text t b'U' (replicate n b'L' ++ rest) (e, l, b, y))
          (λ r _ z.
            put_while-text it (λ c. c == b'L') r (replicate n b'L') rest (replicate-all n) no_l z))
  suffix-text t (suffix false zero) rest no_u no_l y =
      let u : (it.ch t.chars == b'U') ≡ false = rw (Yields-head it t.chars rest y) no_u in
      rw u (put_while-text it (λ c. c == b'L') t [] rest refl no_l y)
  suffix-text t (suffix false (suc n)) rest no_u no_l (e, l, b, y) =
      let u : (it.ch t.chars == b'U') ≡ false = rw e refl in
      rw u (
        put_while-text it (λ c. c == b'L') t (replicate (suc n) b'L') rest (replicate-all (suc n))
          no_l (e, l, b, y))

  -- Behind the digits a suffix does not belong to them.
  numeral_stops-suffix :
      (n : Numeral) (x : Suffix) (rest : Bytes)
      → numeral_stops n (head_of rest) ≡ true
      → numeral_stops n (head_of (suffix_text x ++ rest)) ≡ true
  unfolding is_digit is_octal is_hex
  numeral_stops-suffix n (suffix false zero) rest h = h
  numeral_stops-suffix (decimal_digits c ds) (suffix true k) rest h = refl
  numeral_stops-suffix (octal_digits ds) (suffix true k) rest h = refl
  numeral_stops-suffix (hex_digits ds) (suffix true k) rest h = refl
  numeral_stops-suffix (decimal_digits c ds) (suffix false (suc k)) rest h = refl
  numeral_stops-suffix (octal_digits ds) (suffix false (suc k)) rest h = refl
  numeral_stops-suffix (hex_digits ds) (suffix false (suc k)) rest h = refl

  pub number-text :
      (t : Tokenizer S) (n : Numeral) (x : Suffix) (rest : Bytes)
      → t.token ≡ []
      → in_numeral n ≡ true
      → (numeral_stops n (head_of rest)
          && (not (head_of rest == b'U') && not (head_of rest == b'L')))
        ≡ true
      → Yields it t.chars ((numeral_text n ++ suffix_text x) ++ rest)
      → (s : S) × (number it t
          ≡ record t { kind = b'0'; token = numeral_text n ++ suffix_text x; chars = s })
        × Yields it s rest
  unfolding number
  number-text t n x rest empty v stop y =
      let start = record t { kind = b'0' } in
      let y' = subst (Yields it t.chars) (append_assoc (numeral_text n) (suffix_text x) rest) y in
      let (s, e, z) =
        Grows-append start (numeral_text n) (suffix_text x)
          (λ u. put_while it (λ c. c == b'L') (if it.ch u.chars == b'U' then put it u else u))
          (number_digits it start) (suffix_text x ++ rest) rest
          (digits-text start n (suffix_text x ++ rest) v
            (numeral_stops-suffix n x rest (ground (arith, stop))) y')
          (λ r _ w. suffix-text r x rest (ground (arith, stop)) (ground (arith, stop)) w) in
      (s, e ∙ rw empty refl, z)
