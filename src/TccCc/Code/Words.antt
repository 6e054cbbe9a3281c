-- ===== src/TccCc/Code/Words.antt =====
-- The text of a word.
use mes_replacement.Prelude.{
  ℕ, [], ◌∷◌, ◌++◌, ◌||◌, ◌==◌, ltb, leb, ◌%◌, ◌/◌, ◌+◌, ◌-◌, if◌then◌else◌, codes, Bytes,
}
use mes_replacement.Libc.Numbers.{format_u}
use mes_replacement.TccCc.Code.{
  Word, push_name, push_number, push_string, push_member, arrow_member, fetch, store, one, two,
  push_mask, copy, exchange, ignore, call, open_or, open_and, open_if, otherwise, open_block, close,
  local_from, local_array,
}

-- `%x` of four bits.
abbrev hex_digit : ℕ → ℕ
hex_digit n = if ltb n 10 then b'0' + n else b'a' + n - 10

-- The escape of a character in a string.
abbrev pub escaped_char : ℕ → Bytes
escaped_char ch =
    if ch == 0
    then codes "\\0"
    else if ch == b'\n'
    then codes "\\n"
    else if ch == b'\r'
    then codes "\\r"
    else if ch == b'\t'
    then codes "\\t"
    else if ch == b'"' || ch == b'\\'
    then b'\\' ∷ ch ∷ []
    else if ltb ch b' ' || leb 127 ch
    then b'\\' ∷ b'x' ∷ hex_digit (ch / 16 % 16) ∷ hex_digit (ch % 16) ∷ []
    else ch ∷ []

unfoldable pub escaped_text : Bytes → Bytes
escaped_text [] = []
escaped_text (ch ∷ cs) = escaped_char ch ++ escaped_text cs

abbrev size_digit : ℕ → Bytes
size_digit n = if n == 0 then [] else format_u n

-- The text that is written for the word.
abbrev pub text_of_word : Word → Bytes
text_of_word (push_name n) = n ++ codes " "
text_of_word (push_number v) = format_u v ++ codes " "
text_of_word (push_string s) = codes "\"" ++ escaped_text s ++ codes "\" "
text_of_word (push_mask m) = m ++ codes " "
text_of_word (push_member nr n) = codes "s" ++ format_u nr ++ codes "_m_" ++ n ++ codes " "
text_of_word (arrow_member nr n) = codes "->s" ++ format_u nr ++ codes "_m_" ++ n ++ codes " "
text_of_word (fetch n) = codes "?" ++ size_digit n ++ codes " "
text_of_word (store n) = codes "=" ++ size_digit n ++ codes " "
text_of_word (one o) = o ++ codes " "
text_of_word (two o) = o ++ codes " "
text_of_word copy = codes "$ "
text_of_word exchange = codes ">< "
text_of_word ignore = codes "; "
text_of_word (call n) = codes "() "
text_of_word open_or = codes "|| { "
text_of_word open_and = codes "&& { "
text_of_word open_if = codes "if { "
text_of_word otherwise = codes "} else { "
text_of_word open_block = codes "{ "
text_of_word close = codes "} "
text_of_word (local_from n) = codes "int " ++ n ++ codes " " ++ n ++ codes " =: "
text_of_word (local_array n) = codes "int " ++ format_u n ++ codes " __var_args "
