-- ===== src/StackC/Lexer/Numbers.antt =====
-- Numbers, and the symbols that begin with `-`.
use mes_replacement.Prelude.{
  ℕ, ◌+◌, ◌-◌, ◌*◌, ◌%◌, ◌^◌, Bool, true, false, ◌||◌, leb, ◌==◌, if◌then◌else◌, within, is_digit,
  is_octal, print_d,
}
use mes_replacement.StackC.Lexer.Base.{Lexer, char_of, read, append_char, shift, loop}
use mes_replacement.StackC.Lexer.Quoted.{hex_value}

abbrev pub word64 : ℕ
word64 = 2 ^ 64

abbrev pub is_hex : ℕ → Bool
is_hex c = within b'0' b'9' c || within b'a' b'f' c || within b'A' b'F' c

-- `int_value = base * int_value + digit; read_char();`
abbrev pub add_digit : ℕ → Lexer → Lexer
add_digit base l =
    read (record l { int_value = (base * l.int_value + hex_value (char_of l)) % word64 })

unfoldable pub lex_digits : Lexer → Lexer
lex_digits l₀ =
    let l = record l₀ { sym = b'0'; int_value = 0 } in
    let k = read l in
    if char_of l == b'0'
    then (if char_of k == b'x'
        then loop (λ l. is_hex (char_of l)) (add_digit 16) (read k)
        else loop (λ l. is_octal (char_of l)) (add_digit 8) k)
    else loop (λ l. is_digit (char_of l)) (add_digit 10) l

-- `int_value = sign * int_value; sprintf(token, "%d", int_value);`
unfoldable pub lex_number : Bool → Lexer → Lexer
lex_number negative l =
    let k = lex_digits l in
    let v = if negative then (word64 - k.int_value) % word64 else k.int_value in
    record k { int_value = v; token = print_d v }

-- `done` where `get_token` returns, `falls_through` where it goes on to the tests below.
pub data Lexed : Type 0 where
  done falls_through : Lexer → Lexed

-- After the `-`.
unfoldable pub lex_dash : Lexer → Lexed
lex_dash l =
    if char_of l == b'>'
    then done (shift (record l { sym = b'w' }))
    else if char_of l == b'p'
    then done (shift (record l { sym = b'y' }))
    else if leb (char_of l) b' ' || leb 128 (char_of l)
    then done (record l { sym = b'-' })
    else if is_digit (char_of l)
    then done (lex_number true l)
    else falls_through l

unfoldable pub lex_number_or_dash : Lexer → Lexed
lex_number_or_dash l₀ =
    let l = append_char (char_of l₀) l₀ in
    if char_of l₀ == b'-' then lex_dash (read l) else done (lex_number false l)
