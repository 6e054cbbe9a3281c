-- ===== src/StackC/Lexer.antt =====
-- `get_token`: one symbol of the source, with its text in `token` or its value in `int_value`.
mod Base
pub mod Blank
pub mod Words
pub mod Quoted
pub mod Numbers
pub mod Symbols
pub mod Progress
mod Silent
pub mod Output
pub mod Skipped
mod Tests
pub use Base.*
use mes_replacement.Prelude.{
  [], Bool, ◌||◌, ◌==◌, if◌then◌else◌, is_digit, is_ident_start, is_ident_char, is_octal, print_d,
  while_do,
}
use mes_replacement.StackC.Scanner.{read_char}
use Blank.{skip_blank, echo_comment}
use Words.{lex_identifier, classify, mapped}
use Quoted.{lex_quoted, hex_value, unescape, quoted}
use Numbers.{Lexed, done, falls_through, lex_number_or_dash, lex_digits, lex_number, lex_dash}
use Symbols.{lex_symbol, symbol_of}

pub or_symbol : Lexed → Lexer
or_symbol (done l) = l
or_symbol (falls_through l) = lex_symbol l

-- The tests on the first character, once white space is skipped and its place stored.
unfoldable pub lex_token : Lexer → Lexer
lex_token l =
    let c = char_of l in
    if is_ident_start c
    then lex_identifier l
    else if c == b'\'' || c == b'"'
    then lex_quoted l
    else if is_digit c || c == b'-'
    then or_symbol (lex_number_or_dash l)
    else lex_symbol l

-- Behind the white space: the end of the file, or a token and its place.
unfoldable pub start_token : Lexer → Lexer
start_token l =
    if char_of l == 0
    then record l { sym = 0 }
    else lex_token
        (record l { cur_line = l.scan.cur_char_line; cur_column = l.scan.cur_char_column })

unfoldable pub get_token : Lexer → Lexer
get_token l = start_token (skip_blank (record l { token = [] }))

-- Unfolding this name unfolds the lexer down to its loops, for a run at a concrete source.
unfoldable pub lexing : Unit {0}
unfolding get_token start_token skip_blank lex_token is_ident_start is_ident_char is_digit is_octal
    lex_identifier lex_quoted lex_number_or_dash lex_symbol or_symbol read_char loop while_do
    echo_comment classify mapped symbol_of hex_value unescape quoted print_d lex_digits lex_number
    lex_dash
lexing = tt
