-- ===== src/TccCc/Tokens/Laws.antt =====
-- What `tokenizer_next` does on the spelling of a token.
pub mod Shapes
pub mod Assignments
pub mod Symbols
pub mod Names
pub mod Branches
pub mod Lexing
pub mod Texts
pub mod Literals
use mes_replacement.Prelude.{ℕ}
