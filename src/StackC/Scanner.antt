-- ===== src/StackC/Scanner.antt =====
-- `read_char` and the globals it keeps. A `char` is its byte; one from 128 up is negative.
use mes_replacement.Prelude.{
  ℕ, ◌+◌, ◌-◌, ◌%◌, ◌≤◌, ◌<◌, ◌≡◌, ◌≢◌, refl, [], ◌∷◌, Bool, ◌&&◌, ◌||◌, not, arith, length, ltb,
  leb, ◌==◌, if◌then◌else◌, Bytes,
}

pub record Scanner : Type 0 where
  -- what `fgetc(fin)` has still to return
  pub fin : Bytes
  pub cur_char : ℕ
  pub cur_char_line : ℕ
  pub cur_char_column : ℕ

-- The line and column once the character that `read_char` leaves behind is passed.
passed : Scanner → Scanner
passed s =
    if s.cur_char == b'\n'
    then record s { cur_char_line = s.cur_char_line + 1; cur_char_column = 0 }
    else s

advance : Bytes → Scanner → Scanner
advance [] s = record s { fin = []; cur_char = 0 }
advance (c ∷ rest) s =
    let column = s.cur_char_column + 1 in
    record s {
      fin = rest;
      cur_char = c;
      cur_char_column = if c == b'\t' then column + (4 - (column - 1) % 4) else column;
    }

unfoldable pub read_char : Scanner → Scanner
unfolding passed advance
read_char s = advance s.fin (passed s)

-- `cur_char != '\0' && cur_char <= ' '`
abbrev pub is_blank : ℕ → Bool
is_blank c = not (c == 0) && (leb c b' ' || leb 128 c)

-- `cur_char > ' '`
abbrev pub is_graphic : ℕ → Bool
is_graphic c = ltb b' ' c && ltb c 128

-- How many characters are still to be consumed.
abbrev pub left : Scanner → ℕ
left s = length s.fin + (if s.cur_char == 0 then 0 else 1)

advance-left : (rest : Bytes) (s : Scanner) → left (advance rest s) ≤ length rest
unfolding advance
advance-left [] s = ground arith
advance-left (c ∷ rest) s = ground arith

passed-fin : (s : Scanner) → (passed s).fin ≡ s.fin
unfolding passed
passed-fin s = ground arith

pub read_char-left : (s : Scanner) → left (read_char s) ≤ length s.fin
read_char-left s = unfold read_char in advance-left s.fin (passed s)

-- Each character that is not the end of the file is consumed once.
pub read_char-left_lt : (s : Scanner) → s.cur_char ≢ 0 → left (read_char s) < left s
read_char-left_lt s h = ground (arith, read_char-left s)

pub read_char-left_le : (s : Scanner) → left (read_char s) ≤ left s
read_char-left_le s = ground (arith, read_char-left s)

-- What is read at the end of the file and in front of a character.
pub read_char-at_end :
    (s : Scanner) → s.fin ≡ [] → ((read_char s).cur_char ≡ 0) × ((read_char s).fin ≡ [])
unfolding read_char advance
read_char-at_end s e = rw (read_char, e) (refl, refl)

pub read_char-in_front :
    (s : Scanner) (c : ℕ) (rest : Bytes)
    → s.fin ≡ c ∷ rest
    → ((read_char s).cur_char ≡ c) × ((read_char s).fin ≡ rest)
unfolding read_char advance
read_char-in_front s c rest e = rw (read_char, e) (refl, refl)
