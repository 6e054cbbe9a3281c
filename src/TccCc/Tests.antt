-- ===== src/TccCc/Tests.antt =====
-- Concrete runs of the preprocessor's parts.
use mes_replacement.Prelude.{
  ℕ, Bool, ◌≡◌, refl, List, [], ◌∷◌, none, some, true, false, codes, arith, Bytes, here, there,
  not_Member-nil, is_ident_start, is_ident_char, is_digit,
}
use mes_replacement.TccCc.Chars.{Yields}
use mes_replacement.TccCc.Chars.File.{
  FileIterator, file_iterator, new_file_iterator, text_of_file, new_file_iterator-Yields,
}
use mes_replacement.TccCc.Chars.Splice.{
  splice_iterator, new_line_splice_iterator, new_line_splice_iterator-Yields,
}
use mes_replacement.TccCc.Chars.Strip.{strip_iterator, new_comment_strip_iterator}
use mes_replacement.TccCc.Chars.Strip.Pieces.{
  plain, escaped, Piece, character, line_comment, block_comment, string_literal, char_literal, text,
  stripped,
}
use mes_replacement.TccCc.Chars.Strip.Literals.{new_comment_strip_iterator-Yields}
use mes_replacement.TccCc.Chars.Include.{
  IncludeIterator, include_iterator, include_iterator_add, new_include_iterator,
  include_iterator_add-Yields,
}
use mes_replacement.TccCc.Tokens.{Tokenizer}
use mes_replacement.TccCc.Tokens.Escapes.{hex_value}
use mes_replacement.TccCc.Tokens.Words.{is_hex}
use mes_replacement.TccCc.Tokens.Next.{new_tokenizer}
use mes_replacement.TccCc.Tokens.Lexemes.{Lexeme, word, numeral, symbol, single, hex_digits, suffix}
use mes_replacement.TccCc.Tokens.Values.{string_int_value, string_int_value-numeral}
use mes_replacement.TccCc.Tokens.Laws.Lexing.{Reads, tokenizer_next-Reads}
use mes_replacement.TccCc.Tokens.Laws.Texts.{kinds_and_texts, tokens_on}
use mes_replacement.TccCc.Environment.{Token, Macro, get_env, find_env, del_env}
use mes_replacement.TccCc.Environment.Laws.{
  are_distinct, get_env-del_env-update, get_env-del_env-distinct,
}
use mes_replacement.TccCc.Conditions.{name_value, defined_value, parse_or_expr}
use mes_replacement.TccCc.Conditions.Names.{name_value_self}
use mes_replacement.TccCc.Conditions.Trees.{
  Condition, number, name, defined, both, equal, tokens_of,
}
use mes_replacement.TccCc.Conditions.Laws.{Knows}
use mes_replacement.TccCc.Conditions.Chains.{parse_or_expr-tokens_of}
use mes_replacement.TccCc.Directives.{heed_all}
use mes_replacement.TccCc.Directives.Groups.{
  Group, done, a_line, a_group, closed, or_if, otherwise, events_of,
}
use mes_replacement.TccCc.Directives.Laws.{state}
use mes_replacement.TccCc.Directives.Passes.{heed_all-events_of}
use mes_replacement.TccCc.Files.{Chain, chain, open_file, open_file-tokens_on}
use mes_replacement.TccCc.Output.{printed, printed-spelling}
use mes_replacement.TccCc.Conditions.Trees.{mark}

abbrev source_name : Bytes
source_name = codes "a.c"

-- `a`, a carriage return, a backslash, a line feed and `b`.
abbrev some_bytes : Bytes
some_bytes = b'a' ∷ b'\r' ∷ b'\\' ∷ b'\n' ∷ b'b' ∷ []

abbrev opened : Bytes → FileIterator
opened bytes = new_file_iterator source_name (some bytes)

new_line_splice_iterator-Yields_example :
    Yields
      (splice_iterator file_iterator)
      (new_line_splice_iterator file_iterator (opened some_bytes))
      (codes "ab")
new_line_splice_iterator-Yields_example =
    new_line_splice_iterator-Yields file_iterator (opened some_bytes) (text_of_file some_bytes)
      (new_file_iterator-Yields source_name some_bytes)

-- A comment of either kind, a string with an escaped quote and a character.
abbrev some_pieces : List Piece
some_pieces =
    character b'x'
    ∷ block_comment (codes " y ")
    ∷ string_literal (plain b'/' ∷ plain b'/' ∷ escaped b'"' ∷ [])
    ∷ char_literal (plain b'"')
    ∷ line_comment (codes "z")
    ∷ []

new_comment_strip_iterator-Yields_example :
    Yields
      (strip_iterator file_iterator)
      (new_comment_strip_iterator file_iterator (opened (text some_pieces)))
      (stripped some_pieces)
new_comment_strip_iterator-Yields_example =
    new_comment_strip_iterator-Yields file_iterator (opened (text some_pieces)) some_pieces refl
      (new_file_iterator-Yields source_name (text some_pieces))

include_iterator_add-Yields_example :
    (st : IncludeIterator FileIterator) × (include_iterator_add file_iterator
        (new_include_iterator file_iterator (opened (codes ";d")))
        (opened (codes "bc"))
      ≡ some st)
    × Yields (include_iterator file_iterator) st (b'b' ∷ b'c' ∷ b'\n' ∷ b'd' ∷ [])
unfolding new_include_iterator
include_iterator_add-Yields_example =
    include_iterator_add-Yields file_iterator
      (new_include_iterator file_iterator (opened (codes ";d"))) (opened (codes "bc")) b'b'
      (codes "c") (codes ";d") [] (omega arith) (new_file_iterator-Yields source_name (codes "bc"))
      (new_file_iterator-Yields source_name (codes ";d")) _

tokenizer_next-Reads_example :
    Reads file_iterator true
      (new_tokenizer (opened (codes " >>=1")))
      (symbol (codes ">>=") 662)
      (codes "1")
unfolding new_tokenizer
tokenizer_next-Reads_example =
    tokenizer_next-Reads file_iterator true (new_tokenizer (opened (codes " >>=1"))) (codes " ")
      (symbol (codes ">>=") 662) (codes "1") refl refl refl
      (new_file_iterator-Yields source_name (codes " >>=1"))

string_int_value-numeral_example : string_int_value (codes "0x1fUL") ≡ 31
unfolding string_int_value is_hex hex_value
string_int_value-numeral_example =
    string_int_value-numeral (hex_digits (codes "1f")) (suffix true 1) refl

-- `int x = 0x1f; // n`
abbrev some_lexemes : List (Bytes × Lexeme)
some_lexemes =
    ([], word b'i' (codes "nt"))
    ∷ (codes " ", word b'x' [])
    ∷ (codes " ", symbol (codes "=") b'=')
    ∷ (codes " ", numeral (hex_digits (codes "1f")) (suffix false 0))
    ∷ ([], single b';')
    ∷ []

abbrev line_of : Bytes → List Piece
line_of [] = line_comment (codes " n") ∷ []
line_of (c ∷ cs) = character c ∷ line_of cs

abbrev some_line : List Piece
some_line = line_of (codes "int x = 0x1f; ")

open_file-tokens_on_example :
    (t : Tokenizer Chain) × (open_file source_name (some (text some_line)) ≡ some t)
    × (tokens_on chain 6 t ≡ some (kinds_and_texts some_lexemes))
unfolding is_ident_start is_ident_char is_hex
open_file-tokens_on_example =
    open_file-tokens_on source_name (text some_line) b'i' _ some_line some_lexemes
      (b' ' ∷ b'\n' ∷ []) refl refl refl refl refl

abbrev macro_of : Bytes → List Token → Macro
macro_of n ts = record { name = n; args = []; tokens = ts }

abbrev some_macros : List Macro
some_macros =
    macro_of (codes "A") (record { kind = b'0'; token = codes "7" } ∷ [])
    ∷ macro_of (codes "B") (record { kind = b'i'; token = codes "B" } ∷ [])
    ∷ []

get_env-del_env-update_example :
    (find_env ((get_env some_macros (codes "C") true).1) (codes "A")
      ≡ find_env some_macros (codes "A"))
    × (find_env (del_env some_macros (codes "C")) (codes "A") ≡ find_env some_macros (codes "A"))
get_env-del_env-update_example = get_env-del_env-update some_macros (codes "C") (codes "A") refl

get_env-del_env-distinct_example :
    (are_distinct ((get_env some_macros (codes "C") true).1) ≡ true)
    × (are_distinct (del_env some_macros (codes "C")) ≡ true)
get_env-del_env-distinct_example = get_env-del_env-distinct some_macros (codes "C") refl

-- `defined A && A == 7`
abbrev a_condition : Condition
a_condition = both (defined (codes "A")) (equal (name (codes "A")) (number (codes "7")))

a_condition-Knows : Knows some_macros (λ n. 7) 3 a_condition
unfolding name_value get_env string_int_value is_digit
a_condition-Knows n here = refl
a_condition-Knows n (there m) = absurd (not_Member-nil m)

parse_or_expr-tokens_of_example :
    parse_or_expr some_macros 3 6 (tokens_of a_condition []) ≡ some (1, [])
unfolding name_value get_env string_int_value defined_value is_digit
parse_or_expr-tokens_of_example =
    parse_or_expr-tokens_of some_macros (λ n. 7) 3 a_condition [] refl a_condition-Knows refl

name_value_self_example : name_value some_macros 100 (codes "B") ≡ none
unfolding get_env
name_value_self_example =
    name_value_self some_macros (codes "B")
      (macro_of (codes "B") (record { kind = b'i'; token = codes "B" } ∷ []))
      (record { kind = b'i'; token = codes "B" }) refl refl refl refl 100

-- Line 1, an `#if 0` with line 2, an `#elif 1` with line 3 and an `#ifdef` that does not hold around
-- line 4, an `#else` with line 5, and line 6.
abbrev a_text : Group
a_text = a_line 1 (
    a_group false (a_line 2 done)
      (or_if true (a_line 3 (a_group false (a_line 4 done) closed done))
        (otherwise (a_line 5 done)))
      (a_line 6 done))

heed_all-events_of_example :
    (f : ℕ → Bool) × (heed_all (events_of a_text []) (state 0 (λ i. false) 0 [])
      ≡ some (state 0 f 0 (1 ∷ 3 ∷ 6 ∷ [])))
heed_all-events_of_example = heed_all-events_of a_text (λ i. false) refl (omega arith)

printed-spelling_example : printed (mark 660 (codes "<<=")) ≡ codes "<<="
printed-spelling_example = printed-spelling (symbol (codes "<<=") 660) refl refl
