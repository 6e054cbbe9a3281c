-- ===== src/TccCc/Parser/Grammar.antt =====
-- The productions of the grammar of expressions.
use mes_replacement.Prelude.{
  ℕ, zero, suc, List, [], ◌∷◌, Option, none, some, not, ◌&&◌, ◌==◌, if◌then◌else◌, length,
}
use mes_replacement.TccCc.Environment.{Token}
use mes_replacement.TccCc.Chars.Strip.Pieces.{head_of}
use mes_replacement.TccCc.Tokens.Kinds.{tk_inc, tk_dec, tk_arrow}
use mes_replacement.TccCc.Tokens.Values.{string_int_value}
use mes_replacement.TccCc.Types.{
  CType, BaseType, base, pointer, Target, Decl, size_of, is_typedef, find_decl,
}
use mes_replacement.TccCc.Exprs.{
  Expr, null, node, nil, oper_post_inc, oper_post_dec, one_child, two_children, three_children,
  new_expr_int_value, type_of, char_value, children,
}
use mes_replacement.TccCc.Parser.{
  tk_sizeof, cur_kind, cur_text, next_token, Parsed, Parser, unchecked, ◌>>=◌, expect, Parsers,
  parse_string, assigns,
}
use mes_replacement.TccCc.Parser.Specifiers.{Specified, parse_type_specifier, parse_sizeof_type}
use mes_replacement.TccCc.Parser.Nodes.{
  expr_type_member, member_node, points_to_null, pointee, max_items, call_node, comma_node,
  prefix_node, parse_list, chain_loop,
}

module _ (g : Target) (decls : List Decl) (tagged : ℕ → List Token → Specified)
    (struct_of : List Token → Specified) where
  -- `find_decl` found a declaration that is no typedef.
  unfoldable pub variable : List Token → Option Decl
  variable ts = elim (find_decl decls (cur_text ts)) [
    | none ↦ none
    | some d ↦ if cur_kind ts == b'i' && not (is_typedef d) then some d else none
  ]

  -- `while (accept_term('*')) type = new_ptr_type(type);`
  unfoldable pub cast_stars : CType → List Token → CType × List Token
  cast_stars type [] = (type, [])
  cast_stars type (t ∷ ts) =
      let rest = cast_stars (pointer type) ts in if t.kind == b'*' then rest else (type, t ∷ ts)

  module _ (p : Parsers) where
    unfoldable pub cast : CType → List Token → Parsed
    unfolding cast_stars
    cast type ts =
        let (starred, us) = cast_stars type ts in
        expect b')' us
          (λ vs. do (subj, ws) ← p.unary vs; some (one_child b'c' (some starred) subj, ws))

    -- Behind a `(`.
    unfoldable pub parenthesis : List Token → Parsed
    unfolding parse_type_specifier cast
    parenthesis ts =
        let (type, us) = parse_type_specifier tagged decls ts in
        let inner = (do (e, vs) ← p.expr us; expect b')' vs (λ ws. some (e, ws))) in
        elim type [ none ↦ inner | some t ↦ cast t us ]

    unfoldable pub parse_constant : List Token → Parsed
    unfolding parenthesis parse_string
    parse_constant ts =
        let us = next_token ts in
        if cur_kind ts == b'0'
        then some (new_expr_int_value (string_int_value (cur_text ts)), us)
        else if cur_kind ts == b'\''
        then some
            (node b'0' (char_value (head_of (cur_text ts))) [] (some (base BaseType.s8)) nil, us)
        else if cur_kind ts == b'"'
        then parse_string ts
        else if cur_kind ts == b'('
        then parenthesis us
        else some (null, ts)

    unfoldable pub parse_primary_expr : Parser
    unfolding parse_constant variable
    parse_primary_expr ts = elim (variable ts) [
      | none ↦ parse_constant ts
      | some d ↦ some (node b'i' 0 (cur_text ts) d.type nil, next_token ts)
    ]

    -- Behind the `(` of a call.
    unfoldable pub parse_arguments : Parser
    unfolding parse_list
    parse_arguments ts =
        if cur_kind ts == b')'
        then some (node b',' 0 [] none nil, ts)
        else parse_list max_items p.assignment ts

    -- What stands behind the expression, if it goes on with it.
    unfoldable pub postfix_loop : ℕ → Expr → Parser
    unfolding parse_arguments
    postfix_loop zero e ts = none
    postfix_loop (suc n) e ts =
        let us = next_token ts in
        let indexed = (do
          (i, vs) ← p.expr us
          expect b']' vs (λ ws. postfix_loop n (two_children b'[' (expr_type_member e) e i) ws)) in
        let called = (do
          (args, vs) ← parse_arguments us
          expect b')' vs (λ ws. postfix_loop n (call_node e (children args)) ws)) in
        let dotted =
          postfix_loop n (member_node g b'.' e (type_of e) (cur_text us)) (next_token us) in
        let pointed =
          postfix_loop n (member_node g tk_arrow e (pointee e) (cur_text us)) (next_token us) in
        let increased = postfix_loop n (one_child oper_post_inc (type_of e) e) us in
        let decreased = postfix_loop n (one_child oper_post_dec (type_of e) e) us in
        if cur_kind ts == b'['
        then indexed
        else if cur_kind ts == b'('
        then called
        else if cur_kind ts == b'.'
        then (if cur_kind us == b'i' then dotted else some (null, us))
        else if cur_kind ts == tk_arrow
        then (if cur_kind us == b'i'
            then (if points_to_null e then none else pointed)
            else some (null, us))
        else if cur_kind ts == tk_inc
        then increased
        else if cur_kind ts == tk_dec
        then decreased
        else some (e, ts)

    unfoldable pub parse_postfix_expr : Parser
    unfolding parse_primary_expr postfix_loop
    parse_postfix_expr ts = do (e, us) ← parse_primary_expr ts; postfix_loop (suc (length us)) e us

    abbrev sizeof_node : Option CType → Expr
    sizeof_node none = new_expr_int_value 0
    sizeof_node (some t) = new_expr_int_value (size_of g t)

    -- Behind `sizeof`.
    unfoldable pub parse_sizeof : Parser
    unfolding parse_sizeof_type
    parse_sizeof ts =
        let (type, us) = parse_sizeof_type tagged decls struct_of (next_token ts) in
        let of_type = expect b')' us (λ vs. some (sizeof_node type, vs)) in
        let of_expr = (do
          (e, vs) ← p.expr us
          expect b')' vs (λ ws. some (sizeof_node (type_of e), ws))) in
        let of_unary = (do (e, vs) ← p.unary ts; some (sizeof_node (type_of e), vs)) in
        if cur_kind ts == b'(' then elim type [ none ↦ of_expr | some t ↦ of_type ] else of_unary

    unfoldable pub parse_unary_expr : Parser
    unfolding parse_postfix_expr parse_sizeof prefix_node
    parse_unary_expr ts = elim (prefix_node (cur_kind ts)) [
      | some make ↦ (do (e, us) ← p.unary (next_token ts); some (make e, us))
      | none ↦
          if cur_kind ts == tk_sizeof then parse_sizeof (next_token ts) else parse_postfix_expr ts
    ]

    -- `parse_expr1` up to `parse_expr9`.
    unfoldable pub parse_level : ℕ → Parser
    unfolding parse_unary_expr chain_loop
    parse_level zero ts = parse_unary_expr ts
    parse_level (suc level) ts =
        unchecked (parse_level level ts)
          (λ (e, us). chain_loop g (suc (length us)) (suc level) (parse_level level) e us)

    unfoldable pub parse_conditional_expr : Parser
    parse_conditional_expr ts = unchecked (parse_level 9 ts) (λ (c, us).
        if cur_kind us == b'?'
        then (do
          (a, vs) ← parse_level 9 (next_token us)
          expect b':' vs (λ ws. do
            (b, xs) ← p.conditional ws
            some (three_children b'?' (type_of a) c a b, xs)))
        else some (c, us))

    unfoldable pub assignment_loop : ℕ → Expr → Parser
    assignment_loop zero e ts = none
    assignment_loop (suc n) e ts =
        let more = (do
          (r, us) ← p.assignment (next_token ts)
          assignment_loop n (two_children (cur_kind ts) (type_of e) e r) us) in
        if assigns (cur_kind ts) then more else some (e, ts)

    unfoldable pub parse_assignment_expr : Parser
    parse_assignment_expr ts = do
      (e, us) ← parse_conditional_expr ts
      assignment_loop (suc (length us)) e us

    unfoldable pub parse_expr : Parser
    parse_expr ts = do
      (e, us) ← parse_assignment_expr ts
      if cur_kind us == b','
          then (do
            (es, vs) ← parse_list max_items parse_assignment_expr (next_token us)
            some (comma_node e (children es), vs))
          else some (e, us)

  -- The parsers that go as deep as there is fuel.
  unfoldable pub parsers : ℕ → Parsers
  unfolding parse_expr
  parsers zero = record {
    expr = λ ts. none;
    assignment = λ ts. none;
    unary = λ ts. none;
    conditional = λ ts. none;
  }
  parsers (suc depth) =
      let p = parsers depth in
      record {
        expr = parse_expr p;
        assignment = parse_assignment_expr p;
        unary = parse_unary_expr p;
        conditional = parse_conditional_expr p;
      }
