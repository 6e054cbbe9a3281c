-- ===== src/TccCc/Tokens/Operators.antt =====
-- The branch of `tokenizer_next` for the operators and all other characters.
use mes_replacement.Prelude.{ℕ, ◌+◌, ◌==◌, ◌||◌, if◌then◌else◌, [], ◌∷◌, ◌++◌}
use mes_replacement.TccCc.Chars.{CharIterator}
use mes_replacement.TccCc.Tokens.{Tokenizer, pass}
use mes_replacement.TccCc.Tokens.Kinds.{
  tk_d_hash, tk_eq, tk_ne, tk_le, tk_ge, tk_inc, tk_dec, tk_arrow, tk_dperiod, tk_dashes, tk_ass,
  tk_dd_oper,
}

module _ {S : Type 0} (it : CharIterator S) where
  -- `it_next(it); token_it->kind = kind; token_it->token[i] = c; i = i + 1;`
  abbrev pub lengthen : ℕ → ℕ → Tokenizer S → Tokenizer S
  lengthen kind c t = record (pass it t) { kind = kind; token = t.token ++ c ∷ [] }

  -- `if (it->ch == c) { <lengthen> }`
  abbrev pub then_if : ℕ → ℕ → Tokenizer S → Tokenizer S
  then_if c kind t = if it.ch t.chars == c then lengthen kind c t else t

  -- Behind a `-`.
  unfoldable pub minus : Tokenizer S → Tokenizer S
  minus t =
      if it.ch t.chars == b'-'
      then lengthen tk_dec b'-' t
      else if it.ch t.chars == b'='
      then lengthen (tk_ass + b'-') b'=' t
      else if it.ch t.chars == b'>'
      then lengthen tk_arrow b'>' t
      else t

  -- Behind a `+`.
  unfoldable pub plus : Tokenizer S → Tokenizer S
  plus t =
      if it.ch t.chars == b'+'
      then lengthen tk_inc b'+' t
      else if it.ch t.chars == b'='
      then lengthen (tk_ass + b'+') b'=' t
      else t

  -- The kind of `c` with a `=` behind it.
  abbrev pub assigning : ℕ → ℕ
  assigning c =
      if c == b'&'
      then tk_ass + b'&'
      else if c == b'|'
      then tk_ass + b'|'
      else if c == b'<'
      then tk_le
      else tk_ge

  -- Behind one of `<`, `>`, `|` and `&`.
  unfoldable pub doubled : ℕ → Tokenizer S → Tokenizer S
  doubled c t =
      if it.ch t.chars == c
      then then_if b'=' (tk_ass + c) (lengthen (tk_dd_oper + c) c t)
      else then_if b'=' (assigning c) t

  -- Behind a `.`.
  unfoldable pub period : Tokenizer S → Tokenizer S
  period t =
      if it.ch t.chars == b'.' then then_if b'.' tk_dashes (lengthen tk_dperiod b'.' t) else t

  unfoldable pub operator : Tokenizer S → Tokenizer S
  unfolding minus plus doubled period
  operator t =
      let c = it.ch t.chars in
      let u = lengthen c c t in
      if c == b'#'
      then then_if b'#' tk_d_hash u
      else if c == b'='
      then then_if b'=' tk_eq u
      else if c == b'*' || (c == b'/' || (c == b'%' || c == b'^'))
      then then_if b'=' (tk_ass + c) u
      else if c == b'-'
      then minus u
      else if c == b'+'
      then plus u
      else if c == b'<' || (c == b'>' || (c == b'|' || c == b'&'))
      then doubled c u
      else if c == b'!'
      then then_if b'=' tk_ne u
      else if c == b'.'
      then period u
      else u
