-- ===== src/StackC.antt =====
-- src/stack_c_amd64.c and src/stack_c_aarch64.c: the Stack C compiler.
pub mod Emit
pub mod Scanner
pub mod Lexer
pub mod State
pub mod Handlers
pub mod Program
pub mod Moves
pub mod Labels
pub mod References
pub mod Errors
pub mod Render
