-- ===== src/TccCc/Chars/Strip/Pieces.antt =====
-- C text as comments, literals and other characters: what the comment strip iterator is to make of it.
use mes_replacement.Prelude.{
  ℕ, ◌≤◌, List, [], ◌∷◌, ◌++◌, Bool, true, not, ◌&&◌, ◌||◌, arith, ◌==◌, length, length-append,
  Bytes,
}

-- A character of a literal.
pub data Item : Type 0 where
  plain : ℕ → Item
  escaped : ℕ → Item

pub data Piece : Type 0 where
  character : ℕ → Piece
  line_comment : Bytes → Piece
  block_comment : Bytes → Piece
  string_literal : List Item → Piece
  char_literal : Item → Piece

abbrev pub item_text : Item → Bytes
item_text (plain c) = c ∷ []
item_text (escaped c) = b'\\' ∷ c ∷ []

-- The items of a string, and what stands behind them.
abbrev pub items_text : List Item → Bytes → Bytes
items_text [] rest = rest
items_text (i ∷ is) rest = item_text i ++ items_text is rest

-- The text of the pieces. A line comment has the line feed that ends it.
abbrev pub text : List Piece → Bytes
text [] = []
text (character c ∷ ps) = c ∷ text ps
text (line_comment body ∷ ps) = b'/' ∷ b'/' ∷ (body ++ b'\n' ∷ text ps)
text (block_comment body ∷ ps) = b'/' ∷ b'*' ∷ (body ++ b'*' ∷ b'/' ∷ text ps)
text (string_literal is ∷ ps) = b'"' ∷ items_text is (b'"' ∷ text ps)
text (char_literal i ∷ ps) = b'\'' ∷ (item_text i ++ b'\'' ∷ text ps)

-- The text with a line feed for each line comment and a space for each other comment.
abbrev pub stripped : List Piece → Bytes
stripped [] = []
stripped (character c ∷ ps) = c ∷ stripped ps
stripped (line_comment body ∷ ps) = b'\n' ∷ stripped ps
stripped (block_comment body ∷ ps) = b' ' ∷ stripped ps
stripped (string_literal is ∷ ps) = b'"' ∷ items_text is (b'"' ∷ stripped ps)
stripped (char_literal i ∷ ps) = b'\'' ∷ (item_text i ++ b'\'' ∷ stripped ps)

abbrev pub head_of : Bytes → ℕ
head_of [] = 0
head_of (c ∷ cs) = c

-- A character outside comments and literals, and `d` behind it.
abbrev pub is_ordinary : ℕ → ℕ → Bool
is_ordinary c d =
    not (c == 0)
    && (not (c == b'"') && (not (c == b'\'') && not (c == b'/' && (d == b'/' || d == b'*'))))

abbrev pub in_line : Bytes → Bool
in_line [] = true
in_line (c ∷ cs) = not (c == 0) && (not (c == b'\n') && in_line cs)

-- No NUL, and no star with a slash behind it.
abbrev pub in_block : Bytes → Bool
in_block [] = true
in_block (c ∷ cs) = not (c == 0) && (not (c == b'*' && head_of cs == b'/') && in_block cs)

abbrev pub in_literal : Item → Bool
in_literal (plain c) = not (c == 0) && not (c == b'\\')
in_literal (escaped c) = not (c == 0)

abbrev pub in_string_literal : List Item → Bool
in_string_literal [] = true
in_string_literal (plain c ∷ is) = not (c == b'"') && (in_literal (plain c) && in_string_literal is)
in_string_literal (escaped c ∷ is) = in_literal (escaped c) && in_string_literal is

-- The pieces are those that the text is made of: each literal and each comment ends where it seems.
abbrev pub is_valid : List Piece → Bool
is_valid [] = true
is_valid (character c ∷ ps) = is_ordinary c (head_of (text ps)) && is_valid ps
is_valid (line_comment body ∷ ps) = in_line body && is_valid ps
is_valid (block_comment body ∷ ps) = in_block body && is_valid ps
is_valid (string_literal is ∷ ps) = in_string_literal is && is_valid ps
is_valid (char_literal i ∷ ps) = in_literal i && is_valid ps

pub items_text-length :
    (is : List Item) (a b : Bytes)
    → length a ≤ length b
    → length (items_text is a) ≤ length (items_text is b)
items_text-length [] a b h = h
items_text-length (plain c ∷ is) a b h = omega (arith, items_text-length is a b h)
items_text-length (escaped c ∷ is) a b h = omega (arith, items_text-length is a b h)

pub length-stripped : (ps : List Piece) → length (stripped ps) ≤ length (text ps)
length-stripped [] = omega arith
length-stripped (character c ∷ ps) = omega (arith, length-stripped ps)
length-stripped (line_comment body ∷ ps) =
    omega (arith, length-stripped ps, length-append body (b'\n' ∷ text ps))
length-stripped (block_comment body ∷ ps) =
    omega (arith, length-stripped ps, length-append body (b'*' ∷ b'/' ∷ text ps))
length-stripped (string_literal is ∷ ps) =
    let behind : length (b'"' ∷ stripped ps) ≤ length (b'"' ∷ text ps) =
      omega (arith, length-stripped ps) in
    omega (arith, items_text-length is (b'"' ∷ stripped ps) (b'"' ∷ text ps) behind)
length-stripped (char_literal (plain c) ∷ ps) = omega (arith, length-stripped ps)
length-stripped (char_literal (escaped c) ∷ ps) = omega (arith, length-stripped ps)
