-- ===== src/TccCc/Code/Laws.antt =====
-- Laws of the code that is written for expressions.
pub mod Operands
pub mod Steps
pub mod Branches
pub mod Places
pub mod Choices
pub mod Calls
pub mod Balance
