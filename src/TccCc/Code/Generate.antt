-- ===== src/TccCc/Code/Generate.antt =====
-- `gen_expr`: calls, and the branch of each kind.
use mes_replacement.Prelude.{
  ℕ, zero, suc, ◌+◌, ◌-◌, ◌*◌, ◌%◌, ◌^◌, List, [], ◌∷◌, ◌++◌, Option, none, some, Bool, true, false,
  ◌&&◌, ◌||◌, ◌==◌, ltb, if◌then◌else◌, codes, same_text, length, take, Bytes,
}
use mes_replacement.TccCc.Tokens.Kinds.{tk_eq, tk_ne, tk_le, tk_ge, tk_arrow, tk_ass, tk_dd_oper}
use mes_replacement.TccCc.Types.{CType, function, Target}
use mes_replacement.TccCc.Exprs.{
  Expr, null, node, Exprs, nil, cons, oper_post_inc, oper_post_dec, oper_pre_inc, oper_pre_dec,
  oper_min, oper_star, oper_addr,
}
use mes_replacement.TccCc.Code.{
  ◌>>=◌, Word, push_name, push_number, push_string, fetch, store, two, copy, ignore, call, open_or,
  open_and, open_block, close, local_array,
}
use mes_replacement.TccCc.Code.Operands.{signed_words, is_lvalue_of, get_value}
use mes_replacement.TccCc.Code.Branches.{
  Child, value_of_child, address_of_child, type_of_child, is_pointer_kind, cast_code, sequence_code,
  unary_code, binary_code, set_code, compare_code, assign_code, arrow_code, dot_code, index_code,
  step_code, negative_code, short_code, choice_code,
}

abbrev pub var_args_name : Bytes
var_args_name = codes "__var_args"

-- The number of declarations of the function, and whether the last one stands for more arguments.
abbrev pub declared : CType → ℕ × Bool
declared (function t n more) = (n, more)
declared _ = (0, false)

-- The next children, as values.
unfoldable pub values_code : ℕ → List Child → Option (List Word)
values_code zero cs = some []
values_code (suc n) [] = none
values_code (suc n) (c ∷ cs) = do ws ← c.value; vs ← values_code n cs; some (ws ++ vs)

abbrev pub behind : ℕ → List Child → List Child
behind zero cs = cs
behind (suc n) [] = []
behind (suc n) (c ∷ cs) = behind n cs

-- The arguments that go to `__var_args`, from the number on.
unfoldable pub var_args_code : Target → ℕ → List Child → Option (List Word)
var_args_code g i [] = some []
var_args_code g i (c ∷ cs) =
    let place = if ltb 0 i then push_number (i * g.long_long_size) ∷ two (codes "+") ∷ [] else [] in
    do
      ws ← c.value
      vs ← var_args_code g (suc i) cs
      some (push_name var_args_name ∷ (place ++ (ws ++ (store 0 ∷ ignore ∷ vs))))

abbrev pub more_args_code : Target → List Child → Option (List Word)
more_args_code g [] = some (push_number 0 ∷ [])
more_args_code g (c ∷ cs) = do
  ws ← var_args_code g 0 (c ∷ cs)
  some (open_block ∷ local_array (length (c ∷ cs)) ∷ (ws ++ (push_name var_args_name ∷ [])))

abbrev pub closing : List Child → List Word
closing [] = []
closing (c ∷ cs) = close ∷ []

-- The function, behind its arguments, and the call of it.
abbrev pub called_code : ℕ → CType → Child → Option (List Word)
called_code n type f = do
  ws ← f.address
  some (ws ++ ((if is_pointer_kind type then fetch 0 ∷ [] else []) ++ (call n ∷ [])))

unfoldable pub args_code : Target → CType → Child → List Child → Option (List Word)
unfolding values_code var_args_code
args_code g type f cs =
    let (n, more) = declared type in
    let fixed = (do
      ws ← values_code (n - 1) cs
      vs ← more_args_code g (behind (n - 1) cs)
      us ← called_code n type f
      some (ws ++ (vs ++ (us ++ closing (behind (n - 1) cs))))) in
    let given = (do
      ws ← values_code (length cs) cs
      us ← called_code (length cs) type f
      some (ws ++ us)) in
    if ltb 0 n && more then fixed else given

-- The names of `va_start` and of its first argument.
abbrev pub va_start_of : List Child → Option Bytes
va_start_of (f ∷ c ∷ cs) = elim (f.of) [
  | null ↦ none
  | node k v s type es ↦ elim (c.of) [
    | null ↦ none
    | node m w r d fs ↦
        if k == b'i' && (same_text s (codes "va_start") && m == b'i') then some r else none
  ]
]
va_start_of _ = none

abbrev pub typed_call : Target → List Child → Option (List Word)
typed_call g [] = none
typed_call g (f ∷ cs) = do d ← type_of_child 0 (f ∷ cs); type ← d; args_code g type f cs

unfoldable pub call_code : Target → List Child → Option (List Word)
unfolding args_code
call_code g cs = elim (va_start_of cs) [
  | none ↦ typed_call g cs
  | some n ↦ some (push_name n ∷ push_name var_args_name ∷ fetch 0 ∷ store 0 ∷ [])
]

-- The branches of the `switch`.
pub data Branch : Type 0 where
  of_name of_number of_string of_cast of_sequence of_unary of_binary of_set of_compare of_assign
        of_arrow of_dot of_index of_call of_negative of_star of_addr of_or of_and of_choice
        of_other :
      Branch
  of_step : Bytes → Bytes → Bool → Branch

abbrev is_binary : ℕ → Bool
is_binary kind =
    kind == tk_dd_oper + b'>'
    || (kind == b'+'
        || (kind == b'-'
            || (kind == b'*'
                || (kind == b'^'
                    || (kind == b'&'
                        || (kind == b'|'
                            || (kind == tk_ne || (kind == tk_dd_oper + b'<' || kind == tk_eq))))))))

abbrev is_compare : ℕ → Bool
is_compare kind =
    kind == b'/'
    || (kind == b'%' || (kind == b'<' || (kind == b'>' || (kind == tk_le || kind == tk_ge))))

abbrev is_assign : ℕ → Bool
is_assign kind =
    let op = kind - tk_ass in
    op == b'*'
    || (op == b'/'
        || (op == b'%'
            || (op == b'+'
                || (op == b'-'
                    || (op == b'<'
                        || (op == b'>' || (op == b'^' || (op == b'&' || op == b'|'))))))))

abbrev branch_of_other : ℕ → Branch
branch_of_other kind =
    if kind == oper_post_inc
    then of_step (codes "+") (codes "-") true
    else if kind == oper_post_dec
    then of_step (codes "-") (codes "+") true
    else if kind == oper_pre_inc
    then of_step (codes "+") (codes "-") false
    else if kind == oper_pre_dec
    then of_step (codes "-") (codes "+") false
    else if kind == oper_min
    then of_negative
    else if kind == oper_star
    then of_star
    else if kind == oper_addr
    then of_addr
    else if kind == tk_dd_oper + b'|'
    then of_or
    else if kind == tk_dd_oper + b'&'
    then of_and
    else if kind == b'?'
    then of_choice
    else of_other

unfoldable pub branch_of : ℕ → Branch
branch_of kind =
    if kind == b'i'
    then of_name
    else if kind == b'0'
    then of_number
    else if kind == b'"'
    then of_string
    else if kind == b'c'
    then of_cast
    else if kind == b',' || kind == b'l'
    then of_sequence
    else if kind == b'!' || kind == b'~'
    then of_unary
    else if is_binary kind
    then of_binary
    else if kind == b'='
    then of_set
    else if is_compare kind
    then of_compare
    else if is_assign kind
    then of_assign
    else if kind == tk_arrow
    then of_arrow
    else if kind == b'.'
    then of_dot
    else if kind == b'['
    then of_index
    else if kind == b'('
    then of_call
    else branch_of_other kind

unfoldable pub branch_code :
    Target → Bool → ℕ → ℕ → Bytes → Option CType → List Child → Branch → Option (List Word)
unfolding cast_code sequence_code unary_code binary_code set_code compare_code assign_code
    arrow_code dot_code index_code call_code step_code negative_code short_code choice_code
branch_code g as_value kind v s type cs of_name = some (push_name s ∷ [])
branch_code g as_value kind v s type cs of_number =
    some (push_number (v % 2 ^ 32) ∷ signed_words type)
branch_code g as_value kind v s type cs of_string = some (push_string (take v s) ∷ [])
branch_code g as_value kind v s type cs of_cast = cast_code g type cs
branch_code g as_value kind v s type cs of_sequence = sequence_code cs
branch_code g as_value kind v s type cs of_unary = unary_code g kind type cs
branch_code g as_value kind v s type cs of_binary = binary_code g kind type cs
branch_code g as_value kind v s type cs of_set = set_code g type cs
branch_code g as_value kind v s type cs of_compare = compare_code g kind type cs
branch_code g as_value kind v s type cs of_assign = assign_code g kind type cs
branch_code g as_value kind v s type cs of_arrow = arrow_code v s cs
branch_code g as_value kind v s type cs of_dot = dot_code v s cs
branch_code g as_value kind v s type cs of_index = index_code g type cs
branch_code g as_value kind v s type cs of_call = call_code g cs
branch_code g as_value kind v s type cs (of_step change back after) =
    step_code g change back after type cs
branch_code g as_value kind v s type cs of_negative = negative_code g type cs
branch_code g as_value kind v s type cs of_star = value_of_child 0 cs
branch_code g as_value kind v s type cs of_addr = address_of_child 0 cs
branch_code g as_value kind v s type cs of_or = short_code open_or cs
branch_code g as_value kind v s type cs of_and = short_code open_and cs
branch_code g as_value kind v s type cs of_choice = choice_code as_value cs
branch_code g as_value kind v s type cs of_other = some (copy ∷ [])

-- The value of the place, where it is asked for.
unfoldable pub fetched : Target → Bool → ℕ → Option CType → List Word → Option (List Word)
fetched g false kind type ws = some ws
fetched g true kind type ws = do
  place ← is_lvalue_of kind type
  some (if place then ws ++ get_value g type else ws)

unfoldable mutual
  unfolding branch_of branch_code fetched

  pub gen_expr : Target → Expr → Bool → Option (List Word)
  gen_expr g null as_value = some []
  gen_expr g (node kind v s type es) as_value =
      branch_code g as_value kind v s type (gen_children g es) (branch_of kind) >>= λ ws.
      fetched g as_value kind type ws

  pub gen_children : Target → Exprs → List Child
  gen_children g nil = []
  gen_children g (cons e es) =
      record { of = e; value = gen_expr g e true; address = gen_expr g e false } ∷ gen_children g es
