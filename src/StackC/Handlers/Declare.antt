-- ===== src/StackC/Handlers/Declare.antt =====
-- The branches for `void`, `const`, `int` and `static`.
use mes_replacement.Prelude.{
  ℕ, ◌+◌, ◌%◌, ◌^◌, [], ◌∷◌, ◌++◌, not, Option, none, some, ◌==◌, ltb, leb, if◌then◌else◌, length,
}
use mes_replacement.StackC.Emit.{function_start}
use mes_replacement.StackC.State.{
  IdentType, Ident, constant, global, local, static, block, Compiler, Outcome, next, exits,
  one_status, sym_of, token_of, next_token, emit, find_ident, add_ident, add_function, idents_full,
  open_nest, max_nr_statics,
}

-- After the name: `;` for a forward definition, else the body.
unfoldable pub function_body : Compiler → Outcome
function_body c₀ =
    if sym_of c₀ == b';'
    then next c₀
    else (let c = record c₀ { pos = 1 } in
        if not (sym_of c == b'{')
        then exits one_status c
        else next (record (open_nest block 0 (emit (function_start c.function_name) c)) { id = 1 }))

unfoldable pub declare_function : Option Ident → Compiler → Outcome
declare_function (some _) c = function_body (next_token c)
declare_function none c =
    if idents_full c
    then exits one_status c
    else function_body (next_token (add_function (token_of c) c))

unfoldable pub handle_function : Compiler → Outcome
unfolding find_ident add_function function_body declare_function
handle_function c₀ =
    let c = next_token c₀ in
    if not (sym_of c == b'A')
    then exits one_status c
    else declare_function (find_ident (token_of c) c.idents)
        (record c { function_name = token_of c })

unfoldable pub handle_const : Compiler → Outcome
handle_const c₀ =
    let c = next_token c₀ in
    if not (sym_of c == b'A')
    then exits one_status c
    else if idents_full c
    then exits one_status c
    else (let k = next_token c in
        if not (sym_of k == b'0')
        then exits one_status k
        else next (
            add_ident
              (record {
                type = constant;
                name = token_of c;
                pos = 0;
                size = 0;
                value = k.lex.int_value;
              })
              k))

abbrev pub word32 : ℕ
word32 = 2 ^ 32

abbrev pub declared : IdentType → ℕ → Compiler → Compiler
declared static size c = record c {
  idents =
      record { type = static; name = token_of c; pos = 0; size = size; value = length c.statics }
      ∷ c.idents;
  statics = c.statics ++ record { name = token_of c; size = size } ∷ [];
}
declared type size c = record c {
  idents =
      record { type = type; name = token_of c; pos = c.pos; size = size; value = 0 } ∷ c.idents;
  pos = if ltb 0 (length c.nesting) then (c.pos + size) % word32 else c.pos;
}

-- After the size: the name and the new identifier. `nr_statics` is tested for every variable.
unfoldable pub declare_variable : IdentType → ℕ → Compiler → Outcome
declare_variable type size c =
    if not (sym_of c == b'A')
    then exits one_status c
    else if idents_full c
    then exits one_status c
    else if leb max_nr_statics (length c.statics)
    then exits one_status c
    else next (declared type size c)

unfoldable pub variable_type : Compiler → IdentType
variable_type c =
    if sym_of c == b'S' then static else if length c.nesting == 0 then global else local

unfoldable pub handle_variable : Compiler → Outcome
unfolding declare_variable variable_type
handle_variable c₀ =
    let type = variable_type c₀ in
    let c = next_token c₀ in
    if sym_of c == b'0'
    then declare_variable type (c.lex.int_value % word32) (next_token c)
    else declare_variable type 1 c
