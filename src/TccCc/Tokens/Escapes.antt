-- ===== src/TccCc/Tokens/Escapes.antt =====
-- A character of a character literal or a string literal. The warnings that the code prints are left out.
use mes_replacement.Prelude.{
  ℕ, ◌+◌, ◌-◌, ◌*◌, ◌||◌, not, ◌==◌, if◌then◌else◌, within, is_digit, is_octal,
}
use mes_replacement.TccCc.Chars.{CharIterator}
use mes_replacement.TccCc.Tokens.{Tokenizer, pass}

-- The value of the digit, or nothing where the code warns and adds nothing.
unfoldable pub hex_value : ℕ → ℕ
unfolding is_digit
hex_value c =
    if is_digit c
    then c - b'0'
    else if within b'A' b'F' c
    then c - b'A' + 10
    else if within b'a' b'f' c
    then c - b'a' + 10
    else 0

-- The letters that stand for another character.
unfoldable pub escape_value : ℕ → ℕ
escape_value c =
    if c == b'a'
    then 7
    else if c == b'b'
    then 8
    else if c == b'f'
    then 12
    else if c == b'n'
    then 10
    else if c == b'r'
    then 13
    else if c == b't'
    then 9
    else if c == b'v'
    then 11
    else c

module _ {S : Type 0} (it : CharIterator S) where
  -- Behind a backslash and the digit `0` or `1`.
  unfoldable pub octal_escape : ℕ → Tokenizer S → ℕ × Tokenizer S
  unfolding is_octal
  octal_escape digit t =
      let val = digit - b'0' in
      let c₁ = it.ch t.chars in
      let val₁ = 8 * val + c₁ - b'0' in
      let t₁ = pass it t in
      let c₂ = it.ch t₁.chars in
      if is_octal c₁
      then (if is_octal c₂ then (8 * val₁ + c₂ - b'0', pass it t₁) else (val₁, t₁))
      else if val == 0
      then (0, t)
      else (b'1', t)

  -- Behind a backslash and an `x`.
  unfoldable pub hex_escape : Tokenizer S → ℕ × Tokenizer S
  unfolding hex_value
  hex_escape t =
      let t₁ = pass it t in
      (16 * hex_value (it.ch t.chars) + hex_value (it.ch t₁.chars), pass it t₁)

  unfoldable pub tokenizer_parse_char_literal : Tokenizer S → ℕ × Tokenizer S
  unfolding octal_escape hex_escape escape_value
  tokenizer_parse_char_literal t =
      let t₁ = pass it t in
      let c = it.ch t₁.chars in
      let t₂ = pass it t₁ in
      if not (it.ch t.chars == b'\\')
      then (it.ch t.chars, t₁)
      else if c == b'0' || c == b'1'
      then octal_escape c t₂
      else if c == b'x'
      then hex_escape t₂
      else (escape_value c, t₂)
