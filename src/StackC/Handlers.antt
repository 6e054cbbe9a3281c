-- ===== src/StackC/Handlers.antt =====
-- The branches of the loop in `main`, by what they are about.
pub mod Declare
pub mod Blocks
pub mod Jumps
pub mod Values
