-- ===== src/StackC/References.antt =====
-- The strings and identifiers that the emitted code names: the string pool and the scopes.
pub mod Pool
pub mod Scopes
pub mod Strings
mod Tests
