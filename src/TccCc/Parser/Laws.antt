-- ===== src/TccCc/Parser/Laws.antt =====
-- Laws of the parser of expressions.
pub mod Nodes
pub mod Basics
pub mod Lengths
pub mod Starts
pub mod Primary
pub mod Items
pub mod Turns
pub mod Postfix
pub mod Unary
pub mod Levels
pub mod Steps
pub mod Expressions
pub mod Depth
