-- ===== src/StackC/Lexer/Blank.antt =====
-- White space, and the comments that `get_token` copies to the output.
use mes_replacement.Prelude.{not, ◌&&◌, ◌||◌, ◌==◌, if◌then◌else◌}
use mes_replacement.StackC.Emit.{echo}
use mes_replacement.StackC.Scanner.{is_blank}
use mes_replacement.StackC.Lexer.Base.{Lexer, char_of, read, write, loop}

-- `fputc(cur_char, fout); read_char();`
abbrev pub echo_char : Lexer → Lexer
echo_char l = read (write (echo (char_of l)) l)

-- The `do … while` over a comment, and the line feed that ends it.
unfoldable pub echo_comment : Lexer → Lexer
echo_comment l =
    write (echo b'\n')
      (loop (λ k. not (char_of k == 0) && not (char_of k == b'\n')) echo_char (echo_char l))

unfoldable pub skip_blank : Lexer → Lexer
skip_blank =
    loop (λ l. is_blank (char_of l) || char_of l == b'#')
      (λ l. if char_of l == b'#' then echo_comment l else read l)
