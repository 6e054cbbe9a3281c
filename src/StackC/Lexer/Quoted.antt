-- ===== src/StackC/Lexer/Quoted.antt =====
-- Character and string literals.
use mes_replacement.Prelude.{
  ℕ, zero, suc, ◌+◌, ◌-◌, ◌*◌, true, ltb, ◌==◌, if◌then◌else◌, length, within,
}
use mes_replacement.StackC.Lexer.Base.{Lexer, char_of, read, append_char}

abbrev pub max_token_length : ℕ
max_token_length = 8000

abbrev pub set_char : ℕ → Lexer → Lexer
set_char c l = record l { scan = record (l.scan) { cur_char = c } }

-- The value of a hexadecimal digit; of any other character nothing is added, and a message printed.
unfoldable pub hex_value : ℕ → ℕ
hex_value c =
    if within b'0' b'9' c
    then c - b'0'
    else if within b'A' b'F' c
    then c - b'A' + 10
    else if within b'a' b'f' c
    then c - b'a' + 10
    else 0

-- After a backslash: `cur_char` becomes the character that the escape stands for.
unfoldable pub unescape : Lexer → Lexer
unescape l₀ =
    let l = read l₀ in
    if char_of l == b'0'
    then set_char 0 l
    else if char_of l == b'n'
    then set_char b'\n' l
    else if char_of l == b'r'
    then set_char b'\r' l
    else if char_of l == b't'
    then set_char b'\t' l
    else if char_of l == b'x'
    then (let high = read l in
        let low = read high in
        set_char (16 * hex_value (char_of high) + hex_value (char_of low)) low)
    else l

-- The `while (1)` over the literal.
unfoldable pub quoted : ℕ → ℕ → Lexer → Lexer
quoted zero quote l₀ = l₀
quoted (suc fuel) quote l₀ =
    let l = read l₀ in
    let e = unescape l in
    let escaped = quoted fuel quote (append_char (char_of e) e) in
    let plain = quoted fuel quote (append_char (char_of l) l) in
    if char_of l == 0
    then l
    else if char_of l == quote
    then read l
    else if ltb max_token_length (length l.token)
    then record l { error = true; sym = 0 }
    else if char_of l == b'\\'
    then escaped
    else plain

unfoldable pub lex_quoted : Lexer → Lexer
lex_quoted l =
    let quote = char_of l in quoted (suc (length l.scan.fin)) quote (record l { sym = quote })
