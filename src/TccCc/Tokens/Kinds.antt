-- ===== src/TccCc/Tokens/Kinds.antt =====
-- The kinds of tokens that are more than one character, and the words that have a kind of their own.
use mes_replacement.Prelude.{ℕ, List, [], ◌∷◌, if◌then◌else◌, Bytes, codes, same_text}

abbrev pub tk_d_hash : ℕ
tk_d_hash = 500

abbrev pub tk_eq : ℕ
tk_eq = 501

abbrev pub tk_ne : ℕ
tk_ne = 502

abbrev pub tk_le : ℕ
tk_le = 503

abbrev pub tk_ge : ℕ
tk_ge = 504

abbrev pub tk_inc : ℕ
tk_inc = 505

abbrev pub tk_dec : ℕ
tk_dec = 506

abbrev pub tk_arrow : ℕ
tk_arrow = 507

abbrev pub tk_dperiod : ℕ
tk_dperiod = 508

abbrev pub tk_dashes : ℕ
tk_dashes = 509

-- An assignment with an operator is `tk_ass` and the character of the operator.
abbrev pub tk_ass : ℕ
tk_ass = 600

-- A doubled character is `tk_dd_oper` and the character.
abbrev pub tk_dd_oper : ℕ
tk_dd_oper = 800

abbrev pub tk_defined : ℕ
tk_defined = 1033

-- The first word of the table that equals the text gives the kind, and no word the kind `other`.
unfoldable pub kind_of : List (Bytes × ℕ) → ℕ → Bytes → ℕ
kind_of [] other text = other
kind_of ((word, kind) ∷ words) other text =
    let rest = kind_of words other text in if same_text word text then kind else rest

-- `#else` and its like, of which the spaces behind the `#` are not kept.
abbrev pub directives : List (Bytes × ℕ)
directives =
    (codes "#else", 1029)
    ∷ (codes "#elif", 1030)
    ∷ (codes "#endif", 1031)
    ∷ (codes "#define", 1032)
    ∷ (codes "#if", 1034)
    ∷ (codes "#ifdef", 1035)
    ∷ (codes "#ifndef", 1036)
    ∷ (codes "#include", 1037)
    ∷ (codes "#undef", 1038)
    ∷ (codes "#error", 1039)
    ∷ []

abbrev pub keywords : List (Bytes × ℕ)
keywords =
    (codes "break", 1000)
    ∷ (codes "case", 1001)
    ∷ (codes "char", 1002)
    ∷ (codes "continue", 1004)
    ∷ (codes "const", 1003)
    ∷ (codes "default", 1005)
    ∷ (codes "defined", tk_defined)
    ∷ (codes "do", 1006)
    ∷ (codes "double", 1007)
    ∷ (codes "else", 1008)
    ∷ (codes "enum", 1009)
    ∷ (codes "extern", 1010)
    ∷ (codes "float", 1011)
    ∷ (codes "for", 1012)
    ∷ (codes "goto", 1013)
    ∷ (codes "if", 1014)
    ∷ (codes "inline", 1015)
    ∷ (codes "int", 1016)
    ∷ (codes "long", 1017)
    ∷ (codes "return", 1018)
    ∷ (codes "short", 1019)
    ∷ (codes "sizeof", 1020)
    ∷ (codes "static", 1021)
    ∷ (codes "struct", 1022)
    ∷ (codes "switch", 1023)
    ∷ (codes "typedef", 1024)
    ∷ (codes "union", 1025)
    ∷ (codes "unsigned", 1026)
    ∷ (codes "void", 1027)
    ∷ (codes "while", 1028)
    ∷ []
