-- ===== src/TccCc.antt =====
-- src/tcc_cc.c: the C to Stack C compiler, its preprocessor so far.
pub mod Chars
pub mod Tokens
pub mod Environment
pub mod Conditions
pub mod Files
mod Tests
pub mod Directives
pub mod Types
pub mod Exprs
pub mod Output
pub mod Parser
pub mod Code
