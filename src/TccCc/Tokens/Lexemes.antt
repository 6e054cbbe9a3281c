-- ===== src/TccCc/Tokens/Lexemes.antt =====
-- Tokens as they are written: their spelling, and the kind and the text that the tokenizer is to give.
use mes_replacement.Prelude.{
  ℕ, ◌+◌, List, [], ◌∷◌, ◌++◌, Bool, true, false, not, ◌&&◌, ◌||◌, ◌==◌, leb, ltb, if◌then◌else◌,
  is_digit, is_octal, is_ident_start, is_ident_char, replicate, same_text, codes, length, Bytes,
}
use mes_replacement.TccCc.Chars.Strip.Pieces.{
  Item, plain, escaped, items_text, item_text, in_literal,
}
use mes_replacement.TccCc.Tokens.Kinds.{kind_of, keywords}
use mes_replacement.TccCc.Tokens.Escapes.{escape_value}
use mes_replacement.TccCc.Tokens.Words.{is_hex, max_token_len}
use mes_replacement.TccCc.Tokens.Scan.{all_of}

-- The digits of a number. A decimal one starts with a digit other than zero.
pub data Numeral : Type 0 where
  decimal_digits : ℕ → Bytes → Numeral
  octal_digits : Bytes → Numeral
  hex_digits : Bytes → Numeral

-- `U` or not, and a number of `L`s.
pub data Suffix : Type 0 where
  suffix : Bool → ℕ → Suffix

pub data Lexeme : Type 0 where
  word : ℕ → Bytes → Lexeme
  numeral : Numeral → Suffix → Lexeme
  symbol : Bytes → ℕ → Lexeme
  single : ℕ → Lexeme
  quoted : Item → Lexeme
  text_literal : List Item → Lexeme

abbrev pub numeral_text : Numeral → Bytes
numeral_text (decimal_digits c ds) = c ∷ ds
numeral_text (octal_digits ds) = b'0' ∷ ds
numeral_text (hex_digits ds) = b'0' ∷ b'x' ∷ ds

abbrev pub suffix_text : Suffix → Bytes
suffix_text (suffix u n) = (if u then b'U' ∷ [] else []) ++ replicate n b'L'

abbrev pub spelling : Lexeme → Bytes
spelling (word c cs) = c ∷ cs
spelling (numeral n s) = numeral_text n ++ suffix_text s
spelling (symbol cs kind) = cs
spelling (single c) = c ∷ []
spelling (quoted i) = b'\'' ∷ (item_text i ++ b'\'' ∷ [])
spelling (text_literal is) = b'"' ∷ items_text is (b'"' ∷ [])

abbrev pub kind_of_lexeme : Lexeme → ℕ
kind_of_lexeme (word c cs) = kind_of keywords b'i' (c ∷ cs)
kind_of_lexeme (numeral n s) = b'0'
kind_of_lexeme (symbol cs kind) = kind
kind_of_lexeme (single c) = c
kind_of_lexeme (quoted i) = b'\''
kind_of_lexeme (text_literal is) = b'"'

-- The character that an item stands for.
abbrev pub item_value : Item → ℕ
item_value (plain c) = c
item_value (escaped c) = escape_value c

abbrev pub items_value : List Item → Bytes
items_value [] = []
items_value (i ∷ is) = item_value i ∷ items_value is

abbrev pub text_of : Lexeme → Bytes
text_of (word c cs) = c ∷ cs
text_of (numeral n s) = numeral_text n ++ suffix_text s
text_of (symbol cs kind) = cs
text_of (single c) = c ∷ []
text_of (quoted i) = item_value i ∷ []
text_of (text_literal is) = items_value is

abbrev pub equal_operators : List (Bytes × ℕ)
equal_operators = (codes "=", b'=') ∷ (codes "==", 501) ∷ []

abbrev pub star_operators : List (Bytes × ℕ)
star_operators = (codes "*", b'*') ∷ (codes "*=", 600 + b'*') ∷ []

abbrev pub slash_operators : List (Bytes × ℕ)
slash_operators = (codes "/", b'/') ∷ (codes "/=", 600 + b'/') ∷ []

abbrev pub percent_operators : List (Bytes × ℕ)
percent_operators = (codes "%", b'%') ∷ (codes "%=", 600 + b'%') ∷ []

abbrev pub caret_operators : List (Bytes × ℕ)
caret_operators = (codes "^", b'^') ∷ (codes "^=", 600 + b'^') ∷ []

abbrev pub minus_operators : List (Bytes × ℕ)
minus_operators =
    (codes "-", b'-') ∷ (codes "--", 506) ∷ (codes "-=", 600 + b'-') ∷ (codes "->", 507) ∷ []

abbrev pub plus_operators : List (Bytes × ℕ)
plus_operators = (codes "+", b'+') ∷ (codes "++", 505) ∷ (codes "+=", 600 + b'+') ∷ []

abbrev pub less_operators : List (Bytes × ℕ)
less_operators =
    (codes "<", b'<')
    ∷ (codes "<<", 800 + b'<')
    ∷ (codes "<=", 503)
    ∷ (codes "<<=", 600 + b'<')
    ∷ []

abbrev pub greater_operators : List (Bytes × ℕ)
greater_operators =
    (codes ">", b'>')
    ∷ (codes ">>", 800 + b'>')
    ∷ (codes ">=", 504)
    ∷ (codes ">>=", 600 + b'>')
    ∷ []

abbrev pub bar_operators : List (Bytes × ℕ)
bar_operators =
    (codes "|", b'|')
    ∷ (codes "||", 800 + b'|')
    ∷ (codes "|=", 600 + b'|')
    ∷ (codes "||=", 600 + b'|')
    ∷ []

-- The code also takes `||=` and `&&=` for one token each.
abbrev pub ampersand_operators : List (Bytes × ℕ)
ampersand_operators =
    (codes "&", b'&')
    ∷ (codes "&&", 800 + b'&')
    ∷ (codes "&=", 600 + b'&')
    ∷ (codes "&&=", 600 + b'&')
    ∷ []

abbrev pub bang_operators : List (Bytes × ℕ)
bang_operators = (codes "!", b'!') ∷ (codes "!=", 502) ∷ []

abbrev pub period_operators : List (Bytes × ℕ)
period_operators = (codes ".", b'.') ∷ (codes "..", 508) ∷ (codes "...", 509) ∷ []

abbrev pub operator_tables : List (List (Bytes × ℕ))
operator_tables =
    equal_operators ∷ star_operators ∷ slash_operators ∷ percent_operators ∷ caret_operators
    ∷ minus_operators ∷ plus_operators ∷ less_operators ∷ greater_operators ∷ bar_operators
    ∷ ampersand_operators ∷ bang_operators ∷ period_operators ∷ []

abbrev pub joined_tables : List (List (Bytes × ℕ)) → List (Bytes × ℕ)
joined_tables [] = []
joined_tables (table ∷ tables) = table ++ joined_tables tables

-- The operators without `#`.
abbrev pub operators : List (Bytes × ℕ)
operators = joined_tables operator_tables

abbrev pub is_entry : List (Bytes × ℕ) → Bytes → ℕ → Bool
is_entry [] cs kind = false
is_entry ((ds, k) ∷ table) cs kind = (same_text ds cs && k == kind) || is_entry table cs kind

abbrev pub spells : List (Bytes × ℕ) → Bytes → Bool
spells [] cs = false
spells ((ds, k) ∷ table) cs = same_text ds cs || spells table cs

abbrev pub one_of : Bytes → ℕ → Bool
one_of [] c = false
one_of (d ∷ ds) c = c == d || one_of ds c

-- No white space: a byte from 128 up is a negative `char`, and so below the space.
abbrev pub is_visible : ℕ → Bool
is_visible c = leb 33 c && ltb c 128

-- A character that starts no name, no number, no literal and no directive.
abbrev pub is_sign : ℕ → Bool
is_sign c =
    is_visible c
    && (not (is_ident_char c) && (not (c == b'\'') && (not (c == b'"') && not (c == b'#'))))

-- A character that is a token and starts no other one.
abbrev pub is_single : ℕ → Bool
is_single c = is_sign c && not (one_of (codes "=*/%^-+<>|&!.") c)

abbrev pub in_numeral : Numeral → Bool
in_numeral (decimal_digits c ds) = is_digit c && (not (c == b'0') && all_of is_digit ds)
in_numeral (octal_digits ds) = all_of is_octal ds
in_numeral (hex_digits ds) = all_of is_hex ds

-- An item whose escape, if it is one, is a single character.
abbrev pub is_simple : Item → Bool
is_simple (plain c) = in_literal (plain c)
is_simple (escaped c) = not (c == 0) && (not (c == b'0') && (not (c == b'1') && not (c == b'x')))

abbrev pub in_text : List Item → Bool
in_text [] = true
in_text (plain c ∷ is) =
    not (c == b'"') && (not (c == b'\n') && (is_simple (plain c) && in_text is))
in_text (escaped c ∷ is) = is_simple (escaped c) && in_text is

abbrev pub is_lexeme : Lexeme → Bool
is_lexeme (word c cs) = is_ident_start c && all_of is_ident_char cs
is_lexeme (numeral n s) = in_numeral n
is_lexeme (symbol cs kind) = is_entry operators cs kind
is_lexeme (single c) = is_single c
is_lexeme (quoted i) = is_simple i
is_lexeme (text_literal is) = leb (length is) max_token_len && in_text is

abbrev pub numeral_stops : Numeral → ℕ → Bool
numeral_stops (decimal_digits c ds) d = not (is_digit d)
numeral_stops (octal_digits ds) d = not (is_octal d) && not (d == b'x')
numeral_stops (hex_digits ds) d = not (is_hex d)

-- The character behind the lexeme does not belong to it.
abbrev pub stops : Lexeme → ℕ → Bool
stops (word c cs) d = not (is_ident_char d)
stops (numeral n s) d = numeral_stops n d && (not (d == b'U') && not (d == b'L'))
stops (symbol cs kind) d = not (spells operators (cs ++ d ∷ []))
stops (single c) d = true
stops (quoted i) d = true
stops (text_literal is) d = true
