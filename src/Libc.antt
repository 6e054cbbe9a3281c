-- ===== src/Libc.antt =====
-- src/stdlib.c: the C library that the bootstrapped programs are linked with.
pub mod Strings
pub mod Sort
pub mod Numbers
