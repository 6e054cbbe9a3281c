-- ===== src/TccCc/Tokens/Words.antt =====
-- The branches of `tokenizer_next` for directives, names, numbers and literals.
use mes_replacement.Prelude.{
  ℕ, zero, suc, Bool, not, ◌&&◌, ◌||◌, ◌==◌, true, if◌then◌else◌, [], ◌∷◌, ◌++◌, within, is_digit,
  is_octal, is_ident_char, Option, some, none, while_do, length,
}
use mes_replacement.TccCc.Chars.{CharIterator}
use mes_replacement.TccCc.Tokens.{Tokenizer, pass, put, put_while, tokenizer_skip_white_space}
use mes_replacement.TccCc.Tokens.Kinds.{kind_of, directives, keywords}
use mes_replacement.TccCc.Tokens.Escapes.{tokenizer_parse_char_literal}

abbrev pub max_token_len : ℕ
max_token_len = 6000

unfoldable pub is_hex : ℕ → Bool
unfolding is_digit
is_hex c = is_digit c || (within b'a' b'f' c || within b'A' b'F' c)

module _ {S : Type 0} (it : CharIterator S) where
  -- At a `#` at the start of a line. The kind of any other word is 0.
  unfoldable pub directive : Tokenizer S → Tokenizer S
  unfolding tokenizer_skip_white_space while_do kind_of
  directive t =
      let u = put_while it (within b'a' b'z') (tokenizer_skip_white_space it true (put it t)) in
      record u { kind = kind_of directives u.kind u.token }

  unfoldable pub name : Tokenizer S → Tokenizer S
  unfolding while_do is_ident_char kind_of
  name t =
      let u = put_while it is_ident_char (put it t) in
      record u { kind = kind_of keywords b'i' u.token }

  unfoldable pub number_digits : Tokenizer S → Tokenizer S
  unfolding while_do is_hex is_octal is_digit
  number_digits t =
      let u = put it t in
      if it.ch t.chars == b'0'
      then (if it.ch u.chars == b'x'
          then put_while it is_hex (put it u)
          else put_while it is_octal u)
      else put_while it is_digit t

  unfoldable pub number : Tokenizer S → Tokenizer S
  unfolding number_digits while_do
  number t =
      let u = number_digits (record t { kind = b'0' }) in
      let v = if it.ch u.chars == b'U' then put it u else u in put_while it (λ c. c == b'L') v

  unfoldable pub character_literal : Tokenizer S → Tokenizer S
  unfolding tokenizer_parse_char_literal
  character_literal t =
      let (c, u) = tokenizer_parse_char_literal it (record (pass it t) { kind = b'\'' }) in
      let v = record u { token = c ∷ [] } in if it.ch v.chars == b'\'' then pass it v else v

  -- The test of the loop over a string literal.
  abbrev pub goes_on : ℕ → Bool
  goes_on c = not (c == 0) && (not (c == b'\n') && not (c == b'"'))

  -- Nothing where the code exits.
  unfoldable pub string_items : ℕ → Tokenizer S → Option (Tokenizer S)
  unfolding tokenizer_parse_char_literal
  string_items zero t = some t
  string_items (suc fuel) t =
      let (c, u) = tokenizer_parse_char_literal it t in
      let rest = string_items fuel (record u { token = t.token ++ c ∷ [] }) in
      if goes_on (it.ch t.chars)
      then (if length t.token == max_token_len then none else rest)
      else some t

  unfoldable pub string : Tokenizer S → Option (Tokenizer S)
  unfolding string_items
  string t =
      let start = record (pass it t) { kind = b'"' } in
      elim (string_items (suc (it.left start.chars)) start) [
        | none ↦ none
        | some u ↦ some (if it.ch u.chars == b'"' then pass it u else u)
      ]
