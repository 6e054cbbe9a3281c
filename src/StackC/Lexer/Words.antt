-- ===== src/StackC/Lexer/Words.antt =====
-- Identifiers and keywords.
use mes_replacement.Prelude.{
  ℕ, List, [], ◌∷◌, true, ltb, if◌then◌else◌, length, Bytes, codes, same_text, is_ident_char,
}
use mes_replacement.StackC.Lexer.Base.{Lexer, char_of, shift, loop}

abbrev pub max_variable_length : ℕ
max_variable_length = 50

-- A `Mapping`: the name, then the symbol.
abbrev pub Mapping : Type 0
Mapping = Bytes × ℕ

abbrev pub keywords : List Mapping
keywords =
    (codes "void", b'F')
    ∷ (codes "const", b'C')
    ∷ (codes "int", b'V')
    ∷ (codes "do", b'L')
    ∷ (codes "switch", b'W')
    ∷ (codes "break", b'B')
    ∷ (codes "continue", b'D')
    ∷ (codes "if", b'I')
    ∷ (codes "else", b'E')
    ∷ (codes "return", b'R')
    ∷ (codes "goto", b'G')
    ∷ (codes "static", b'S')
    ∷ (codes "char", b'K')
    ∷ (codes "short", b'M')
    ∷ (codes "long", b'O')
    ∷ []

-- The first mapping with that name, or the symbol that is there already.
unfoldable pub mapped : List Mapping → Bytes → ℕ → ℕ
mapped [] name sym = sym
mapped ((n, s) ∷ rest) name sym = if same_text n name then s else mapped rest name sym

-- Behind the loop: the bound on the length, then the keywords.
unfoldable pub classify : Lexer → Lexer
classify k =
    if ltb max_variable_length (length k.token)
    then record k { error = true; sym = 0 }
    else record k { sym = mapped keywords k.token b'A' }

unfoldable pub lex_identifier : Lexer → Lexer
lex_identifier l = classify (loop (λ l. is_ident_char (char_of l)) shift (shift l))
