-- ===== src/StackC/Handlers/Values.antt =====
-- The branches that push values, name labels and call.
use mes_replacement.Prelude.{ℕ, [], ◌∷◌, not, Option, none, some, ◌==◌, if◌then◌else◌, Bytes}
use mes_replacement.StackC.Emit.{
  Emit, goto_label, define_label, push_global, push_function, push_const, push_local, push_static,
  push_number, push_string, push_char, call, arrow, operator,
}
use mes_replacement.StackC.State.{
  IdentType, function, constant, global, local, static, Ident, Compiler, Outcome, next, exits,
  zero_status, one_status, minus_one, sym_of, token_of, next_token, emit, set_error, find_ident,
  nr_for_string,
}

unfoldable pub push_ident : IdentType → Ident → Bytes → Emit
push_ident global i token = push_global token
push_ident function i token = push_function token
push_ident constant i token = push_const i.value token
push_ident local i token = push_local token i.pos
push_ident static i token = push_static token i.value

unfoldable pub handle_ident : Compiler → Outcome
handle_ident c = elim (find_ident (token_of c) c.idents) [
  | none ↦ next (set_error c)
  | some i ↦ next (emit (push_ident i.type i (token_of c)) c)
]

unfoldable pub handle_number : Compiler → Outcome
handle_number c = next (emit (push_number c.lex.int_value) c)

unfoldable pub handle_string : Compiler → Outcome
handle_string c =
    let (nr, pool) = nr_for_string (token_of c) c.strings in
    next (emit (push_string (token_of c) nr) (record c { strings = pool }))

-- `token[0]`; the text of an empty literal is its final NUL.
unfoldable pub first_char : Bytes → ℕ
first_char [] = 0
first_char (c ∷ _) = c

unfoldable pub handle_char : Compiler → Outcome
unfolding first_char
handle_char c = next (emit (push_char (first_char (token_of c))) c)

-- A `goto` with no label returns 0.
unfoldable pub handle_goto : Compiler → Outcome
handle_goto c₀ =
    let c = next_token c₀ in
    if not (sym_of c == b'A')
    then exits zero_status c
    else next (emit (goto_label c.function_name (token_of c)) c)

unfoldable pub handle_label : Compiler → Outcome
handle_label c₀ =
    let c = next_token c₀ in
    if not (sym_of c == b'A')
    then exits minus_one c
    else next (emit (define_label c.function_name (token_of c)) c)

unfoldable pub handle_call : Compiler → Outcome
handle_call c = next (emit (call c.pos) c)

unfoldable pub arrow_to : Option Ident → Compiler → Outcome
arrow_to none c = next (set_error c)
arrow_to (some i) c = elim i.type [
  | constant ↦ next (emit (arrow i.value) c)
  | _ ↦ next (set_error c)
]

unfoldable pub handle_arrow : Compiler → Outcome
unfolding arrow_to
handle_arrow c₀ =
    let c = next_token c₀ in
    if not (sym_of c == b'A')
    then exits one_status c
    else arrow_to (find_ident (token_of c) c.idents) c

unfoldable pub handle_operator : Compiler → Outcome
handle_operator c = next (emit (operator (sym_of c)) c)

unfoldable pub handle_unsupported : Compiler → Outcome
handle_unsupported c = next (set_error c)
