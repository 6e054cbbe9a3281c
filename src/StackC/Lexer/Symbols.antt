-- ===== src/StackC/Lexer/Symbols.antt =====
-- Labels, and the symbols that end at white space.
use mes_replacement.Prelude.{ℕ, List, [], ◌∷◌, codes, Bytes, ◌==◌, if◌then◌else◌}
use mes_replacement.StackC.Scanner.{is_graphic}
use mes_replacement.StackC.Lexer.Base.{Lexer, char_of, read, shift, loop}
use mes_replacement.StackC.Lexer.Words.{Mapping, mapped}

abbrev pub symbols : List Mapping
symbols =
    (codes "=:", b'a')
    ∷ (codes "?1", b'b')
    ∷ (codes "?2", b'c')
    ∷ (codes "?4", b'd')
    ∷ (codes "=1", b'e')
    ∷ (codes "=2", b'f')
    ∷ (codes "=4", b'g')
    ∷ (codes "()", b'h')
    ∷ (codes "/s", b'i')
    ∷ (codes "%s", b'j')
    ∷ (codes "==", b'k')
    ∷ (codes "!=", b'l')
    ∷ (codes "<=", b'm')
    ∷ (codes ">=", b'n')
    ∷ (codes "<s", b'o')
    ∷ (codes "<=s", b'p')
    ∷ (codes ">s", b'q')
    ∷ (codes ">=s", b'r')
    ∷ (codes "<<", b's')
    ∷ (codes ">>", b't')
    ∷ (codes "&&", b'u')
    ∷ (codes "||", b'v')
    ∷ (codes "->", b'w')
    ∷ (codes "><", b'x')
    ∷ (codes "-p", b'y')
    ∷ []

-- The symbol of the text: its character, if it is one, else its place in the table or ' '.
unfoldable pub symbol_of : Bytes → ℕ
symbol_of (c ∷ []) = c
symbol_of text = mapped symbols text b' '

-- The buffer is not read after a ':'; its old text stays.
unfoldable pub lex_symbol : Lexer → Lexer
lex_symbol l =
    let k = loop (λ l. is_graphic (char_of l)) shift (shift l) in
    if char_of l == b':'
    then read (record l { sym = b':' })
    else record k { sym = symbol_of k.token }
