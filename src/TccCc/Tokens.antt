-- ===== src/TccCc/Tokens.antt =====
-- The tokenizer of the preprocessor. A `char` is signed: a byte from 128 up is below zero where the code
-- compares it with `<=`. The buffer of a token is not bounded here: the code has 6000 bytes for it, and
-- only tests a string literal against them.
pub mod Kinds
pub mod Escapes
pub mod Words
pub mod Operators
pub mod Next
pub mod Values
pub mod Scan
pub mod Lexemes
pub mod Laws
use mes_replacement.Prelude.{
  ℕ, suc, ◌+◌, List, [], ◌∷◌, ◌++◌, Option, Bool, not, ◌&&◌, ◌||◌, ◌==◌, leb, while_do, Bytes,
}
use mes_replacement.TccCc.Chars.{CharIterator}

-- `token_iterator_t` with the `_char_iterator` of `tokenizer_s`. `length` is that of `token`.
pub record Tokenizer (S : Type 0) : Type 0 where
  pub kind : ℕ
  pub token : Bytes
  pub filename : Option Bytes
  pub line : ℕ
  pub column : ℕ
  pub chars : S

-- `ch != '\0' && ch <= ' ' && (skip_nl || ch != '\n')`, where a byte from 128 up is below `' '` too.
abbrev pub is_white : Bool → ℕ → Bool
is_white skip_nl c = not (c == 0) && ((leb c b' ' || leb 128 c) && (skip_nl || not (c == b'\n')))

module _ {S : Type 0} (it : CharIterator S) where
  -- `it_next(it)`
  abbrev pub pass : Tokenizer S → Tokenizer S
  pass t = record t { chars = it.next t.chars }

  -- `token_it->token[i] = ch; i = i + 1; it_next(it); ch = it->ch;`
  abbrev pub put : Tokenizer S → Tokenizer S
  put t = record t { token = t.token ++ it.ch t.chars ∷ []; chars = it.next t.chars }

  -- `while (<test of ch>) { <put> }`
  abbrev pub put_while : (ℕ → Bool) → Tokenizer S → Tokenizer S
  put_while test t = while_do (suc (it.left t.chars)) (λ u. test (it.ch u.chars)) put t

  unfoldable pub tokenizer_skip_white_space : Bool → Tokenizer S → Tokenizer S
  unfolding while_do
  tokenizer_skip_white_space skip_nl t =
      while_do (suc (it.left t.chars)) (λ u. is_white skip_nl (it.ch u.chars)) pass t
