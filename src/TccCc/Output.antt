-- ===== src/TccCc/Output.antt =====
-- `output_preprocessor`: the text that is written for a token, behind its place.
use mes_replacement.Prelude.{
  ℕ, ◌+◌, ◌≡◌, refl, subst, List, [], ◌∷◌, ◌++◌, Bool, true, false, not, ◌&&◌, ◌||◌, ◌==◌, leb, ltb,
  if◌then◌else◌, inl, inr, Bool-cases, arith, and-left, and-right, ==→≡, same_text, same_text_iff,
  codes, is_ident_char, Bytes,
}
use mes_replacement.TccCc.Environment.{Token}
use mes_replacement.TccCc.Conditions.Trees.{mark}
use mes_replacement.TccCc.Tokens.Kinds.{kind_of, keywords, tk_ass, tk_dd_oper}
use mes_replacement.TccCc.Tokens.Lexemes.{
  Lexeme, word, numeral, symbol, single, quoted, text_literal, spelling, kind_of_lexeme, text_of,
  is_lexeme, is_entry, operators, is_visible, is_sign,
}

-- A character of a literal. Quotes and backslashes are written as they are.
abbrev literal_char : ℕ → Bytes
literal_char ch =
    if ch == b'\n'
    then codes "\\n"
    else if ch == b'\r'
    then codes "\\r"
    else if ch == b'\t'
    then codes "\\t"
    else if ch == 0
    then codes "\\0"
    else if leb b' ' ch && ltb ch 127
    then ch ∷ []
    else b'\\' ∷ ch ∷ []

abbrev literal_text : Bytes → Bytes
literal_text [] = []
literal_text (ch ∷ cs) = literal_char ch ++ literal_text cs

abbrev operator_names : List (ℕ × Bytes)
operator_names =
    (500, codes "##")
    ∷ (501, codes "==")
    ∷ (502, codes "!=")
    ∷ (503, codes "<=")
    ∷ (504, codes ">=")
    ∷ (505, codes "++")
    ∷ (506, codes "--")
    ∷ (507, codes "->")
    ∷ (tk_ass + b'*', codes "*=")
    ∷ (tk_ass + b'/', codes "/=")
    ∷ (tk_ass + b'%', codes "%%=")
    ∷ (tk_ass + b'+', codes "+=")
    ∷ (tk_ass + b'-', codes "-=")
    ∷ (tk_ass + b'<', codes "<<=")
    ∷ (tk_ass + b'>', codes ">>=")
    ∷ (tk_ass + b'^', codes "^=")
    ∷ (tk_ass + b'&', codes "&=")
    ∷ (tk_ass + b'|', codes "|=")
    ∷ (tk_dd_oper + b'<', codes "<<")
    ∷ (tk_dd_oper + b'>', codes ">>")
    ∷ (tk_dd_oper + b'&', codes "&&")
    ∷ (tk_dd_oper + b'|', codes "||")
    ∷ []

-- The first name of the kind.
unfoldable operator_name : List (ℕ × Bytes) → ℕ → Bytes
operator_name [] kind = codes "????"
operator_name ((k, name) ∷ names) kind =
    let rest = operator_name names kind in if kind == k then name else rest

unfoldable pub printed : Token → Bytes
unfolding operator_name
printed t =
    if t.kind == b'i'
    then t.token
    else if t.kind == b'"' || t.kind == b'\''
    then t.kind ∷ (literal_text t.token ++ (t.kind ∷ []))
    else if t.kind == b'0'
    then t.token
    else if ltb t.kind 127
    then t.kind ∷ []
    else if leb 1000 t.kind
    then t.token
    else operator_name operator_names t.kind

-- The tables of names: no kind below 1000.
abbrev all_words : List (Bytes × ℕ) → Bool
all_words [] = true
all_words ((w, kind) ∷ words) = leb 1000 kind && all_words words

kind_of-words :
    (table : List (Bytes × ℕ)) (text : Bytes)
    → all_words table ≡ true
    → (kind_of table b'i' text == b'i' || leb 1000 (kind_of table b'i' text)) ≡ true
unfolding kind_of
kind_of-words [] text h = refl
kind_of-words ((w, kind) ∷ words) text h = elim (Bool-cases (same_text w text)) [
  | inl e ↦ rw e (high kind (and-left (leb 1000 kind) _ h))
  | inr e ↦ rw e (kind_of-words words text (and-right (leb 1000 kind) _ h))
]
  where
    high : (k : ℕ) → leb 1000 k ≡ true → (k == b'i' || leb 1000 k) ≡ true
    high k h = ground (arith, h)

printed-word :
    (kind : ℕ) (text : Bytes)
    → (kind == b'i' || leb 1000 kind) ≡ true
    → printed (mark kind text) ≡ text
unfolding printed
printed-word kind text h = elim (Bool-cases (kind == b'i')) [
  | inl e ↦ rw (printed, e) refl
  | inr e ↦
      let wide : leb 1000 kind ≡ true = ground (arith, e, h) in
      let no_string : (kind == b'"' || kind == b'\'') ≡ false = ground (arith, wide) in
      let no_number : (kind == b'0') ≡ false = ground (arith, wide) in
      let no_char : ltb kind 127 ≡ false = ground (arith, wide) in
      rw (printed, e, no_string, no_number, no_char, wide) refl
]

not-true : (b : Bool) → not b ≡ true → b ≡ false
not-true true h = absurd (ground (arith, h))
not-true false h = refl

other_char : (c k : ℕ) → is_ident_char c ≡ false → is_ident_char k ≡ true → (c == k) ≡ false
other_char c k h i = elim (Bool-cases (c == k)) [
  | inl e ↦
      let same = subst (λ n. is_ident_char n ≡ false) (==→≡ c k e) h in
      absurd (ground (arith, same, i))
  | inr e ↦ e
]

printed-single :
    (c : ℕ)
    → is_ident_char c ≡ false
    → (c == b'"' || c == b'\'') ≡ false
    → ltb c 127 ≡ true
    → printed (mark c (c ∷ [])) ≡ c ∷ []
unfolding printed is_ident_char
printed-single c other no_string low =
    let no_name : (c == b'i') ≡ false = other_char c b'i' other refl in
    let no_number : (c == b'0') ≡ false = other_char c b'0' other refl in
    rw (printed, no_name, no_string, no_number, low) refl

-- The operators that are written in another way: `%=` as `%%=`, `..` and `...` as `????`, and `||=` and
-- `&&=` as `|=` and `&=`.
abbrev pub is_odd : Bytes → ℕ → Bool
is_odd cs kind =
    (kind == tk_ass + b'%' || (kind == 508 || kind == 509))
    || (same_text (codes "||=") cs || same_text (codes "&&=") cs)

abbrev prints : Bytes → ℕ → Bool
prints cs kind = is_odd cs kind || same_text (printed (mark kind cs)) cs

abbrev all_print : List (Bytes × ℕ) → Bool
all_print [] = true
all_print ((cs, kind) ∷ table) = prints cs kind && all_print table

or-right : (a b : Bool) → a ≡ false → (a || b) ≡ true → b ≡ true
or-right true b h k = absurd (ground (arith, h))
or-right false b h k = k

printed-entry :
    (table : List (Bytes × ℕ)) (cs : Bytes) (kind : ℕ)
    → all_print table ≡ true
    → is_entry table cs kind ≡ true
    → is_odd cs kind ≡ false
    → printed (mark kind cs) ≡ cs
printed-entry [] cs kind h e odd = absurd (ground (arith, e))
printed-entry ((ds, k) ∷ table) cs kind h e odd = elim (Bool-cases (same_text ds cs && k == kind)) [
  | inl same ↦
      let same_name = (same_text_iff ds cs).0 (and-left (same_text ds cs) _ same) in
      let same_kind = ==→≡ k kind (and-right (same_text ds cs) _ same) in
      let here_prints = and-left (prints ds k) (all_print table) h in
      let moved : prints cs kind ≡ true =
        subst (λ n. prints cs n ≡ true) same_kind
          (subst (λ t. prints t k ≡ true) same_name here_prints) in
      (same_text_iff (printed (mark kind cs)) cs).0 (or-right (is_odd cs kind) _ odd moved)
  | inr other ↦
      printed-entry table cs kind (and-right (prints ds k) (all_print table) h)
        (or-right (same_text ds cs && k == kind) _ other e) odd
]

operators_print : all_print operators ≡ true
unfolding printed
operators_print = refl

-- The lexemes that are not literals nor odd operators, within seven bits.
abbrev pub is_common : Lexeme → Bool
is_common (word c cs) = true
is_common (numeral n s) = true
is_common (symbol cs kind) = not (is_odd cs kind)
is_common (single c) = ltb c 127
is_common _ = false

-- What is written for the token of a lexeme that is neither a literal nor one of the odd operators, in
-- seven bits, is the spelling of the lexeme.
pub printed-spelling :
    (l : Lexeme)
    → is_lexeme l ≡ true
    → is_common l ≡ true
    → printed (mark (kind_of_lexeme l) (text_of l)) ≡ spelling l
unfolding printed
printed-spelling (word c cs) v h =
    printed-word (kind_of keywords b'i' (c ∷ cs)) (c ∷ cs) (kind_of-words keywords (c ∷ cs) refl)
printed-spelling (numeral n s) v h = refl
printed-spelling (symbol cs kind) v h =
    printed-entry operators cs kind operators_print v (not-true (is_odd cs kind) h)
printed-spelling (single c) v h =
    let sign = and-right (is_visible c) _ (and-left (is_sign c) _ v) in
    let quotes = and-right (not (is_ident_char c)) _ sign in
    let no_quote = not-true (c == b'\'') (and-left (not (c == b'\'')) _ quotes) in
    let strings = and-right (not (c == b'\'')) _ quotes in
    let no_double = not-true (c == b'"') (and-left (not (c == b'"')) _ strings) in
    let neither : (c == b'"' || c == b'\'') ≡ false = rw (no_double, no_quote) refl in
    printed-single c (not-true (is_ident_char c) (and-left (not (is_ident_char c)) _ sign)) neither
      h
printed-spelling (quoted i) v h = absurd (ground (arith, h))
printed-spelling (text_literal is) v h = absurd (ground (arith, h))
