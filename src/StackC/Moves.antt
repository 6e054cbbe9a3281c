-- ===== src/StackC/Moves.antt =====
-- The compiler as a machine over blocks: what one branch of the loop in `main` may do to the
-- identifiers, the nesting, the pools and the output, whatever the source says.
pub mod Ends
pub mod Declares
pub mod Blocks
pub mod Values
pub mod Refines
pub mod Trace
use mes_replacement.Prelude.{
  ℕ, ◌+◌, ◌≡◌, ◌≢◌, List, [], ◌∷◌, ◌++◌, Bool, true, Option, some, length, Bytes,
}
use mes_replacement.StackC.Emit.{
  Emit, function_start, loop_label, jump_loop_end, jump_switch_end, jump_loop, if_test, and_test,
  or_test, loop_close, switch_close, else_jump, else_label, else_missing, else_close, and_close,
  or_close, push_string, operator, push_number, push_char, call, arrow, goto_label, define_label,
}
use mes_replacement.StackC.Lexer.{Lexer}
use mes_replacement.StackC.Lexer.Output.{Follows}
use mes_replacement.StackC.State.{
  IdentType, global, static, Ident, Static, NestType, block, loop, switch, if_arm, else_arm,
  and_arm, or_arm, Nest, Compiler, emit, find_ident, nr_for_string, oldest, open_nest, token_of,
}
use mes_replacement.StackC.Handlers.Values.{push_ident}

-- A piece that names no string, variable, loop or branch.
abbrev pub IsPlain : Emit → Type 0
IsPlain (operator s) = Unit
IsPlain (push_number n) = Unit
IsPlain (push_char c) = Unit
IsPlain (call p) = Unit
IsPlain (arrow v) = Unit
IsPlain (goto_label f l) = Unit
IsPlain (define_label f l) = Unit
IsPlain _ = ⊥

-- What is written where a numbered block opens, and where a block closes.
abbrev pub opening : NestType → Bytes → ℕ → List Emit
opening loop f id = loop_label f id ∷ []
opening if_arm f id = if_test f id ∷ []
opening and_arm f id = and_test f id ∷ []
opening or_arm f id = or_test f id ∷ []
opening _ f id = []

abbrev pub closing : NestType → Bytes → ℕ → List Emit
closing loop f id = loop_close f id ∷ []
closing switch f id = switch_close f id ∷ []
closing if_arm f id = else_missing f id ∷ []
closing else_arm f id = else_close f id ∷ []
closing and_arm f id = and_close f id ∷ []
closing or_arm f id = or_close f id ∷ []
closing block f id = []

-- `break` and `continue` at a block that encloses them.
pub data JumpTo (f : Bytes) (n : Nest) : Emit → Type 0 where
  to_loop_end : n.type ≡ loop → JumpTo f n (jump_loop_end f n.id)
  to_switch_end : n.type ≡ switch → JumpTo f n (jump_switch_end f n.id)
  to_loop : n.type ≡ loop → JumpTo f n (jump_loop f n.id)

pub data Encloses (n : Nest) : List Nest → Type 0 where
  innermost : {rest : List Nest} → Encloses n (n ∷ rest)
  further : {m : Nest} {rest : List Nest} → Encloses n rest → Encloses n (m ∷ rest)

abbrev pub emits : List Emit → Compiler → Compiler
emits [] c = c
emits (e ∷ es) c = emits es (emit e c)

-- The block `n` is left: `rest` encloses it.
abbrev pub leave : Nest → List Nest → Compiler → Compiler
leave n rest c = record c { nesting = rest; idents = oldest n.nr_vars c.idents; pos = n.pos }

-- The block takes the next number.
abbrev pub open_numbered_at : NestType → Compiler → Compiler
open_numbered_at type c = record (open_nest type c.id c) { id = c.id + 1 }

-- One move. In a `strict` machine a function name changes outside every block.
pub data Move (strict : Bool) (c : Compiler) : Compiler → Type 0 where
  lexes : (l : Lexer) → Follows c.lex l → Move strict c (record c { lex = l })
  renames :
      (name : Bytes)
      → (strict ≡ true → c.nesting ≡ [])
      → Move strict c (record c { function_name = name })
  places : (p : ℕ) → Move strict c (record c { pos = p })
  declares :
      (i : Ident)
      → i.type ≢ static
      → (i.type ≡ global → c.nesting ≡ [])
      → Move strict c (record c { idents = i ∷ c.idents })
  declares_static :
      (name : Bytes) (size : ℕ)
      → Move strict c (record c {
        idents =
            record { type = static; name = name; pos = 0; size = size; value = length c.statics }
            ∷ c.idents;
        statics = c.statics ++ record { name = name; size = size } ∷ [];
      })
  starts :
      Move strict c
        (record (open_nest block 0 (emits (function_start c.function_name ∷ []) c)) { id = 1 })
  opens_block : Move strict c (open_nest block 0 c)
  opens :
      (type : NestType)
      → type ≢ block
      → type ≢ else_arm
      → Move strict c (open_numbered_at type (emits (opening type c.function_name c.id) c))
  closes :
      (n : Nest) (rest : List Nest)
      → c.nesting ≡ n ∷ rest
      → (l : Lexer) → Follows c.lex l
      → Move strict c
          (emits (closing n.type c.function_name n.id) (leave n rest (record c { lex = l })))
  closes_for_else :
      (n : Nest) (rest : List Nest)
      → c.nesting ≡ n ∷ rest
      → n.type ≡ if_arm
      → (l : Lexer) → Follows c.lex l
      → Move strict c (
          open_nest else_arm n.id (
            emits
              (else_jump c.function_name n.id ∷ else_label c.function_name n.id ∷ [])
              (leave n rest (record c { lex = l }))))
  jumps :
      (n : Nest) (e : Emit)
      → Encloses n c.nesting
      → JumpTo c.function_name n e
      → Move strict c (emits (e ∷ []) c)
  writes : (e : Emit) → IsPlain e → Move strict c (emits (e ∷ []) c)
  pushes :
      (name : Bytes) (i : Ident)
      → find_ident name c.idents ≡ some i
      → Move strict c (emits (push_ident i.type i name ∷ []) c)
  pushes_string :
      (text : Bytes)
      → Move strict c (
          emits
            (push_string text (nr_for_string text c.strings).0 ∷ [])
            (record c { strings = (nr_for_string text c.strings).1 }))

pub data Moves (strict : Bool) (c : Compiler) : Compiler → Type 0 where
  start : Moves strict c c
  then_move : {k j : Compiler} → Moves strict c k → Move strict k j → Moves strict c j

module _ {strict : Bool} where
  pub Moves-trans : {c k j : Compiler} → Moves strict c k → Moves strict k j → Moves strict c j
  Moves-trans m start = m
  Moves-trans m (then_move n s) = then_move (Moves-trans m n) s

  pub one : {c k : Compiler} → Move strict c k → Moves strict c k
  one s = then_move start s
