-- ===== src/TccCc/Parser/Nodes.antt =====
-- The nodes that the productions build.
use mes_replacement.Prelude.{
  ℕ, zero, suc, [], Option, none, some, Bool, true, false, ◌||◌, ◌==◌, if◌then◌else◌, Bytes,
}
use mes_replacement.TccCc.Tokens.Kinds.{tk_inc, tk_dec}
use mes_replacement.TccCc.Types.{
  CType, bool_type, pointer, untyped_pointer, Target, member_0, new_ptr_type, base_signed_type,
  expr_dioper_type, find_member,
}
use mes_replacement.TccCc.Exprs.{
  Expr, null, node, Exprs, nil, cons, oper_pre_inc, oper_pre_dec, oper_plus, oper_min, oper_star,
  oper_addr, one_child, two_children, type_of, negated_int, children, last_type,
}
use mes_replacement.TccCc.Parser.{cur_kind, next_token, Parsed, Parser, ◌>>=◌, operator_level}

-- `expr_type_member(expr, 0)`
abbrev pub expr_type_member : Expr → Option CType
expr_type_member e = elim (type_of e) [ none ↦ none | some t ↦ member_0 t ]

abbrev pub member_node : Target → ℕ → Expr → Option CType → Bytes → Expr
member_node g kind e type n = elim (find_member g type n) [
  | none ↦ node kind 0 n none (cons e nil)
  | some m ↦ node kind m.su_nr n (some m.type) (cons e nil)
]

-- `untyped_pointer`: its member is NULL, which `type_decl` reads through.
abbrev pub points_to_null : Expr → Bool
points_to_null e = elim (type_of e) [ some untyped_pointer ↦ true | _ ↦ false ]

-- The type that a `->` looks into, where its operand does not point to NULL.
abbrev pub pointee : Expr → Option CType
pointee e = elim (type_of e) [ some (pointer t) ↦ some t | _ ↦ none ]

abbrev pub call_node : Expr → Exprs → Expr
call_node e es = node b'(' 0 [] (expr_type_member e) (cons e es)

abbrev pub comma_node : Expr → Exprs → Expr
comma_node e es = node b',' 0 [] (last_type (cons e es)) (cons e es)

-- The `-` in front of a number is taken into the number.
unfoldable pub negation : Expr → Expr
negation null = null
negation (node kind v s type es) =
    if kind == b'0'
    then node b'0' (negated_int v) []
        (elim type [ none ↦ none | some t ↦ some (base_signed_type t) ]) nil
    else one_child oper_min type (node kind v s type es)

-- The node that the prefix operator makes of its operand; nothing for any other kind.
unfoldable pub prefix_node : ℕ → Option (Expr → Expr)
unfolding negation
prefix_node kind =
    if kind == tk_inc
    then some (λ e. one_child oper_pre_inc (type_of e) e)
    else if kind == tk_dec
    then some (λ e. one_child oper_pre_dec (type_of e) e)
    else if kind == b'&'
    then some (λ e. one_child oper_addr (some (new_ptr_type (type_of e))) e)
    else if kind == b'*'
    then some (λ e. one_child oper_star (expr_type_member e) e)
    else if kind == b'+'
    then some (λ e. one_child oper_plus (type_of e) e)
    else if kind == b'-'
    then some negation
    else if kind == b'~'
    then some (λ e. one_child b'~' (type_of e) e)
    else if kind == b'!'
    then some (λ e. one_child b'!' (some bool_type) e)
    else none

-- The type of an operation of a level. NULL as the operand on the left is read through except in
-- comparisons and in `&&` and `||`.
unfoldable pub operation_type : Target → ℕ → ℕ → Expr → Expr → Option (Option CType)
unfolding expr_dioper_type
operation_type g level kind l r =
    if level == 4 || (level == 8 || level == 9) then some (some bool_type) else elim l [
      | null ↦ none
      | node k v s type es ↦
          some (if level == 3 then type else expr_dioper_type g kind type (type_of r))
    ]

abbrev pub operation : Target → ℕ → ℕ → Expr → Expr → (Expr → Parsed) → Parsed
operation g level kind l r f = elim (operation_type g level kind l r) [
  | none ↦ none
  | some type ↦ f (two_children kind type l r)
]

-- What `children[20]` holds besides the expression in front.
abbrev pub max_items : ℕ
max_items = 19

-- `do ... while (accept_term(','))`: a node with the expressions as its children. The number is what
-- still has room in `children`: behind the end of the array nothing is given.
unfoldable pub parse_list : ℕ → Parser → Parser
parse_list zero item ts = none
parse_list (suc n) item ts =
    let more = (do
      (e, us) ← item ts
      do
        (es, vs) ← parse_list n item (next_token us)
        some (node b',' 0 [] none (cons e (children es)), vs)) in
    do
      (e, us) ← item ts
      if cur_kind us == b',' then more else some (node b',' 0 [] none (cons e nil), us)

-- The loop of `parse_expr1` and its kin.
unfoldable pub chain_loop : Target → ℕ → ℕ → Parser → Expr → Parser
unfolding operation_type
chain_loop g zero level below e ts = none
chain_loop g (suc n) level below e ts =
    let kind = cur_kind ts in
    let more = (do
      (r, us) ← below (next_token ts)
      operation g level kind e r (λ made. chain_loop g n level below made us)) in
    if operator_level kind == level then more else some (e, ts)
