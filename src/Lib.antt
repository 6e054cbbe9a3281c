-- ===== src/Lib.antt =====
-- The bootstrap tools of MES-replacement that are written in C: the Stack C compiler, the
-- preprocessor of the C compiler tcc_cc, and two small programs of the build, with parts of the C
-- library that they are linked with.
--
-- Stack C is the stack language between tcc_cc (src/tcc_cc.c) and the assembler. Its compiler exists
-- twice, src/stack_c_amd64.c and src/stack_c_aarch64.c, with one parser and two sets of texts.
--   * StackC/Scanner: `read_char` with the place in the source. StackC/Lexer and its children:
--     `get_token`, one module for each kind of token; Progress, Silent, Output and
--     Skipped hold its laws.
--   * StackC/Emit: one value for each `fprintf` of the compiler. StackC/State: the globals, with the
--     arrays as lists, the newest first. StackC/Handlers: the branches of the loop in `main`
--     (Declare, Blocks, Values), and Jumps for
--     `break` and `continue`. StackC/Program: the loop, what stands before and behind it (Data is
--     the data section), and its termination.
--   * StackC/Moves: the compiler as a machine over blocks (Ends, Declares,
--     Blocks, Values, then Refines for a whole round and Trace for a run).
--     StackC/Labels: the labels of the emitted code. StackC/References: the string pool, the
--     strings that the code names, the search for identifiers. StackC/Errors: the error flag.
--   * StackC/Render: the text of each piece of output; Amd64 and Aarch64 are the two back ends.
-- SimplePatch is shpack/bootstrap/simple-patch-1.0/src/simple-patch.c (Search, Copies and Sizes are for
-- the laws, Replace the patch, Program the reading and `main`), Equal is src/equal.c.
-- Libc is src/stdlib.c: Strings (a `char *` is the memory from there on), Sort (`qsort`; the
-- comparison is a parameter, and an element a value) and Numbers (`strtoul`, `strtol`, the digits of
-- `%u` and `%d`).
-- TccCc is src/tcc_cc.c: the preprocessor, whose iterators stand one on top of the other, the
-- parser of expressions, and the code that is written for them.
--   * TccCc/Chars: `char_iterator_t` as a record of operations that the next iterator takes as a
--     parameter, and what it means that an iterator gives some characters. Its children are the four
--     iterators: File, Splice, Strip (Pieces is C text as comments and literals) and Include.
--   * TccCc/Tokens: `tokenizer_next` over any character iterator. Kinds, Escapes, Words, Operators
--     and Next are its branches, Lexemes the tokens as they are written, Laws what it does on them,
--     Values is `string_int_value`.
--   * TccCc/Environment: `get_env` and `del_env`. TccCc/Conditions: the parser of `#if`, over the
--     tokens that are left on the line; Trees are its expressions. TccCc/Directives: which lines
--     `conditional_iterator_next` passes on. TccCc/Files: the iterators that `parse_file` makes.
--     TccCc/Output: the text that `output_preprocessor` writes for a token, without its place.
--   * TccCc/Types, TccCc/Exprs: `type_s`, `decl_s` and `expr_s`. TccCc/Parser: the parser of
--     expressions, from `parse_primary_expr` to `parse_expr`, over the tokens that are left. Specifiers
--     are the types in casts and in sizeof, Nodes and Grammar the productions (`parse_level n` is
--     `parse_exprn`), Trees the expressions as they are written, Laws what the parser does on them. The
--     fuel is the depth of the calls of one production inside another.
--   * TccCc/Code: `gen_expr`, over words of Stack C, with `is_lvalue` and `gen_canonical_cast`. Words is
--     their text, Branches and Generate the branches of the `switch`, Effect what words do to the number
--     of values on the stack, Laws what the code of an expression does to it.
-- Prelude holds the helpers that these share.
--
-- A byte is a number below 256, and a `char` is signed: from 128 up it counts as negative. `int`
-- and `long long` keep their 32 and 64 bits. `%d` and `%u` print 32 bits. A C string that cannot
-- hold a NUL is the list of its bytes.
--
-- A loop over characters runs on fuel, one unit for each character that is left and one more: a
-- round uses up a character. The loop of the compiler has one round for each character of the source
-- and two more, for the symbol that is read already and for the end. The loop of Equal has
-- one round for each byte of the first file and one for its end. The fuel of `decimal` and of
-- `all_digits` is one more than the number, and a number has no more digits than that. The passes of
-- `qsort` are counted by the inversions of the array. Each character iterator bounds what it has
-- still to give (`left`), and the loops over it have that as fuel. The parser of conditions goes as
-- many parentheses deep as there are tokens.
--
-- The kernel is a parameter: what `open` finds and what `read` returns. A `calloc` of a size that
-- is not negative gives a block; of a negative one it is a fault. Not modelled: the messages on
-- stderr, the options on the command line, the rest of src/tcc_cc.c (`#define`, `#include`, the
-- expansion of macros, and behind the preprocessor declarations, statements and struct
-- specifiers), src/bootstrappable.c (another project's), the rest of src/stdlib.c, the macros and
-- stubs for system calls, the shell packages. Writing outside `token` and the nesting arrays is
-- not a fault in the model; the lists grow instead.
pub mod Prelude
pub mod SimplePatch
pub mod Equal
pub mod StackC
pub mod Libc
pub mod TccCc
