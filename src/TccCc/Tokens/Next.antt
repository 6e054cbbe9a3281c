-- ===== src/TccCc/Tokens/Next.antt =====
-- `tokenizer_next`: one token.
use mes_replacement.Prelude.{
  ℕ, ◌==◌, ◌&&◌, ◌||◌, not, Bool, true, if◌then◌else◌, [], Option, some, none, same_text, is_digit,
  is_ident_start, Bytes,
}
use mes_replacement.TccCc.Chars.{Place, CharIterator}
use mes_replacement.TccCc.Tokens.{Tokenizer, tokenizer_skip_white_space}
use mes_replacement.TccCc.Tokens.Words.{directive, name, number, character_literal, string}
use mes_replacement.TccCc.Tokens.Operators.{operator}

-- Another file or another line than that of the last token. The code compares the addresses of the
-- file names.
unfoldable pub other_line : Option Bytes → ℕ → Place → Bool
other_line none line p = true
other_line (some f) line p = not (same_text f p.filename) || not (line == p.line)

module _ {S : Type 0} (it : CharIterator S) where
  -- The token that starts with the character at hand. Nothing where the code exits.
  unfoldable pub token_at : Bool → Tokenizer S → Option (Tokenizer S)
  unfolding is_ident_start is_digit
  token_at at_start_of_line t =
      let c = it.ch t.chars in
      if c == b'\n'
      then some (record t { kind = b'\n' })
      else if c == b'#' && at_start_of_line
      then some (directive it t)
      else if is_ident_start c
      then some (name it t)
      else if is_digit c
      then some (number it t)
      else if c == b'\''
      then some (character_literal it t)
      else if c == b'"'
      then string it t
      else some (operator it t)

  unfoldable pub tokenizer_next : Bool → Tokenizer S → Option (Tokenizer S)
  unfolding tokenizer_skip_white_space token_at other_line
  tokenizer_next skip_nl t =
      let u = record (tokenizer_skip_white_space it skip_nl t) { kind = 0; token = [] } in
      let p = it.place u.chars in
      let v = record u { filename = some (p.filename); line = p.line; column = p.column } in
      if it.ch u.chars == 0 then some u else token_at (other_line u.filename u.line p) v

-- The members that the code leaves uninitialised are zero here; they are not read before the first
-- token.
unfoldable pub new_tokenizer : {S : Type 0} → S → Tokenizer S
new_tokenizer s = record { kind = 0; token = []; filename = none; line = 0; column = 0; chars = s }
