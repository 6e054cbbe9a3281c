-- ===== src/StackC/State.antt =====
-- The globals of `main`. The arrays `idents` and `nesting_*` are stacks, the top first; their counters
-- are the lengths. The string pool and the statics are lists in the order of their numbers.
use mes_replacement.Prelude.{
  ℕ, suc, ◌-◌, List, [], ◌∷◌, ◌++◌, Bool, true, Option, none, some, leb, if◌then◌else◌, length,
  drop, Bytes, same_text,
}
use mes_replacement.StackC.Emit.{Emit}
use mes_replacement.StackC.Lexer.{Lexer, get_token}

abbrev pub max_nr_variables : ℕ
max_nr_variables = 4000

abbrev pub max_nr_statics : ℕ
max_nr_statics = 10

abbrev pub max_nesting : ℕ
max_nesting = 100

pub data IdentType : Type 0 where
  function constant global local static : IdentType

-- `ident_t`. A field that the code leaves as it was in the array, and does not read, is 0.
pub record Ident : Type 0 where
  pub type : IdentType
  pub name : Bytes
  pub pos : ℕ
  pub size : ℕ
  pub value : ℕ

-- `static_t`
pub record Static : Type 0 where
  pub name : Bytes
  pub size : ℕ

-- `nesting_type`: ' ', 'L', 'W', 'I', 'E', 'A' and 'O'.
pub data NestType : Type 0 where
  block loop switch if_arm else_arm and_arm or_arm : NestType

pub record Nest : Type 0 where
  pub type : NestType
  pub id : ℕ
  pub nr_vars : ℕ
  pub pos : ℕ

pub record Compiler : Type 0 where
  pub lex : Lexer
  pub idents : List Ident
  -- `int`, as its 32 bits
  pub pos : ℕ
  pub statics : List Static
  pub strings : List Bytes
  pub nesting : List Nest
  pub id : ℕ
  pub function_name : Bytes

-- What a branch of the loop in `main` does: go on with the `get_token` at its end, skip that by
-- `continue`, or return from `main` with a status (`minus_one` is -1).
pub data ExitStatus : Type 0 where
  zero_status one_status minus_one : ExitStatus

pub data Outcome : Type 0 where
  next again : Compiler → Outcome
  exits : ExitStatus → Compiler → Outcome

abbrev pub sym_of : Compiler → ℕ
sym_of c = c.lex.sym

abbrev pub token_of : Compiler → Bytes
token_of c = c.lex.token

abbrev pub next_token : Compiler → Compiler
next_token c = record c { lex = get_token c.lex }

abbrev pub emit : Emit → Compiler → Compiler
emit e c = record c { lex = record (c.lex) { out = c.lex.out ++ e ∷ [] } }

abbrev pub set_error : Compiler → Compiler
set_error c = record c { lex = record (c.lex) { error = true } }

-- The search from the newest identifier down.
unfoldable pub find_ident : Bytes → List Ident → Option Ident
find_ident name [] = none
find_ident name (i ∷ rest) = if same_text name i.name then some i else find_ident name rest

abbrev pub add_ident : Ident → Compiler → Compiler
add_ident i c = record c { idents = i ∷ c.idents }

unfoldable pub add_function : Bytes → Compiler → Compiler
add_function name =
    add_ident (record { type = function; name = name; pos = 0; size = 0; value = 0 })

abbrev pub idents_full : Compiler → Bool
idents_full c = leb max_nr_variables (length c.idents)

abbrev pub nesting_full : Compiler → Bool
nesting_full c = leb max_nesting (length c.nesting)

-- The oldest `n` of the identifiers: `nr_idents = n`.
unfoldable pub oldest : ℕ → List Ident → List Ident
oldest n idents = drop (length idents - n) idents

abbrev pub open_nest : NestType → ℕ → Compiler → Compiler
open_nest type id c = record c {
  nesting = record { type = type; id = id; nr_vars = length c.idents; pos = c.pos } ∷ c.nesting;
}

-- `nr_for_string`: the number of the string in the pool, and the pool with it.
unfoldable pub nr_for_string : Bytes → List Bytes → ℕ × List Bytes
nr_for_string s [] = (0, s ∷ [])
nr_for_string s (cur ∷ rest) =
    let (nr, rest') = nr_for_string s rest in
    if same_text cur s then (0, cur ∷ rest) else (suc nr, cur ∷ rest')
