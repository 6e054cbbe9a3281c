-- ===== src/StackC/Program/Data.antt =====
-- The data section: the strings of the pool, the global variables and the statics.
use mes_replacement.Prelude.{ℕ, ◌+◌, List, [], ◌∷◌, ◌++◌, Bytes}
use mes_replacement.StackC.Emit.{Emit, data_header, data_end, string_def, global_def, static_def}
use mes_replacement.StackC.State.{IdentType, global, Ident, Static, Compiler}

unfoldable pub string_defs : ℕ → List Bytes → List Emit
string_defs nr [] = []
string_defs nr (s ∷ rest) = string_def nr s ∷ string_defs (nr + 1) rest

global_of : IdentType → Ident → List Emit
global_of global i = global_def i.name i.size ∷ []
global_of _ i = []

-- The identifiers are walked from the oldest on.
unfoldable pub global_defs : List Ident → List Emit
unfolding global_of
global_defs [] = []
global_defs (i ∷ rest) = global_defs rest ++ global_of i.type i

unfoldable pub static_defs : ℕ → List Static → List Emit
static_defs nr [] = []
static_defs nr (s ∷ rest) = static_def nr s.name s.size ∷ static_defs (nr + 1) rest

unfoldable pub data_section : Compiler → List Emit
unfolding string_defs global_defs static_defs
data_section c =
    data_header
    ∷ (string_defs 0 c.strings
        ++ (global_defs c.idents ++ (static_defs 0 c.statics ++ data_end ∷ [])))
