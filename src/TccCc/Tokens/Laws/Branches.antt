-- ===== src/TccCc/Tokens/Laws/Branches.antt =====
-- The branch that the first character of a token leads to.
use mes_replacement.Prelude.{
  ◌≡◌, refl, some, Bool, true, false, arith, ◌==◌, is_digit, is_ident_start, is_ident_char,
}
use mes_replacement.TccCc.Chars.{CharIterator}
use mes_replacement.TccCc.Tokens.{Tokenizer}
use mes_replacement.TccCc.Tokens.Words.{name, number, character_literal, string}
use mes_replacement.TccCc.Tokens.Operators.{operator}
use mes_replacement.TccCc.Tokens.Next.{token_at}
use mes_replacement.TccCc.Tokens.Lexemes.{is_sign}

module _ {S : Type 0} (it : CharIterator S) where
  pub sign-branch :
      (start : Bool) (t : Tokenizer S)
      → is_sign (it.ch t.chars) ≡ true
      → token_at it start t ≡ some (operator it t)
  unfolding token_at is_ident_char
  sign-branch start t h =
      let nl : (it.ch t.chars == b'\n') ≡ false = ground (arith, h) in
      let hash : (it.ch t.chars == b'#') ≡ false = ground (arith, h) in
      let ident : is_ident_start (it.ch t.chars) ≡ false = ground (arith, h) in
      let digit : is_digit (it.ch t.chars) ≡ false = ground (arith, h) in
      let quote : (it.ch t.chars == b'\'') ≡ false = ground (arith, h) in
      let double : (it.ch t.chars == b'"') ≡ false = ground (arith, h) in
      rw (nl, hash, ident, digit, quote, double) refl

  pub word-branch :
      (start : Bool) (t : Tokenizer S)
      → is_ident_start (it.ch t.chars) ≡ true
      → token_at it start t ≡ some (name it t)
  unfolding token_at
  word-branch start t h =
      let nl : (it.ch t.chars == b'\n') ≡ false = ground (arith, is_ident_start, h) in
      let hash : (it.ch t.chars == b'#') ≡ false = ground (arith, is_ident_start, h) in
      rw (nl, hash, h) refl

  pub number-branch :
      (start : Bool) (t : Tokenizer S)
      → is_digit (it.ch t.chars) ≡ true
      → token_at it start t ≡ some (number it t)
  unfolding token_at
  number-branch start t h =
      let nl : (it.ch t.chars == b'\n') ≡ false = ground (arith, is_digit, h) in
      let hash : (it.ch t.chars == b'#') ≡ false = ground (arith, is_digit, h) in
      let ident : is_ident_start (it.ch t.chars) ≡ false =
        ground (arith, is_digit, is_ident_start, h) in
      rw (nl, hash, ident, h) refl

  pub quote-branch :
      (start : Bool) (t : Tokenizer S)
      → it.ch t.chars ≡ b'\''
      → token_at it start t ≡ some (character_literal it t)
  unfolding token_at is_ident_start is_digit
  quote-branch start t h = rw h refl

  pub double-branch :
      (start : Bool) (t : Tokenizer S) → it.ch t.chars ≡ b'"' → token_at it start t ≡ string it t
  unfolding token_at is_ident_start is_digit
  double-branch start t h = rw h refl
