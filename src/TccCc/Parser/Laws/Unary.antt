-- ===== src/TccCc/Parser/Laws/Unary.antt =====
-- Unary expressions.
use mes_replacement.Prelude.{
  ℕ, suc, ◌≤◌, ◌≡◌, refl, List, ◌∷◌, some, true, ltb, arith, and-left, and-right,
}
use mes_replacement.TccCc.Environment.{Token}
use mes_replacement.TccCc.Types.{Target, Decl}
use mes_replacement.TccCc.Exprs.{Expr, null, node}
use mes_replacement.TccCc.Parser.Specifiers.{Specified}
use mes_replacement.TccCc.Parser.Trees.{
  Prefix, pre_inc, pre_dec, address, star, plus, minus, tilde, bang, prefix_kind, prefixed, Tree,
  identifier, number, character, strings, grouped, index, call, dot, arrow, increment, decrement,
  prefix, binary, choice, assign, comma, no_items, one_item, more_items, tokens_of_tree, sign,
  is_tree_of, at_most, nesting_of, expr_of, rank,
}
use mes_replacement.TccCc.Parser.{cur_kind, Parsers, operator_level}
use mes_replacement.TccCc.Parser.Nodes.{prefix_node}
use mes_replacement.TccCc.Parser.Grammar.{parse_unary_expr}
use mes_replacement.TccCc.Parser.Laws.Nodes.{is_node, expr_of-node, at_most-parts}
use mes_replacement.TccCc.Parser.Laws.Basics.{is_quiet, stops_at, ReadsAll}
use mes_replacement.TccCc.Parser.Laws.Starts.{prefix_node-postfix}
use mes_replacement.TccCc.Parser.Laws.Postfix.{parse_postfix_expr-tokens}

module _ (g : Target) (decls : List Decl) (tagged : ℕ → List Token → Specified)
    (struct_of : List Token → Specified) (p : Parsers) where
  prefix-run :
      (o : Prefix) (e : Expr) (ts rest : List Token)
      → p.unary ts ≡ some (e, rest)
      → is_node e ≡ true
      → parse_unary_expr g decls tagged struct_of p (sign (prefix_kind o) ∷ ts)
        ≡ some (prefixed o e, rest)
  unfolding parse_unary_expr prefix_node
  prefix-run o null ts rest run h = absurd (ground (arith, h))
  prefix-run pre_inc (node kind v s type es) ts rest run h = rw run refl
  prefix-run pre_dec (node kind v s type es) ts rest run h = rw run refl
  prefix-run address (node kind v s type es) ts rest run h = rw run refl
  prefix-run star (node kind v s type es) ts rest run h = rw run refl
  prefix-run plus (node kind v s type es) ts rest run h = rw run refl
  prefix-run minus (node kind v s type es) ts rest run h = rw run refl
  prefix-run tilde (node kind v s type es) ts rest run h = rw run refl
  prefix-run bang (node kind v s type es) ts rest run h = rw run refl

  module _ (depth : ℕ) (reads : ReadsAll g decls depth p) where
    unary-postfix :
        (a : Tree) (rest : List Token)
        → nesting_of a ≤ depth
        → is_tree_of g decls true a ≡ true
        → rank a ≡ 0
        → stops_at 0 (cur_kind rest) ≡ true
        → parse_unary_expr g decls tagged struct_of p (tokens_of_tree a rest)
          ≡ some (expr_of g decls a, rest)
    unfolding parse_unary_expr
    unary-postfix a rest h v z stop =
        let (no_prefix, no_sizeof) = prefix_node-postfix g decls a rest v z in
        let run =
          parse_postfix_expr-tokens g decls tagged struct_of p depth reads a rest h v z
            (and-left (is_quiet (cur_kind rest)) _ stop) in
        rw (parse_unary_expr, no_prefix, no_sizeof) run

    pub parse_unary_expr-tokens :
        (a : Tree) (rest : List Token)
        → nesting_of a ≤ depth
        → is_tree_of g decls true a ≡ true
        → rank a ≤ 1
        → stops_at 0 (cur_kind rest) ≡ true
        → parse_unary_expr g decls tagged struct_of p (tokens_of_tree a rest)
          ≡ some (expr_of g decls a, rest)
    parse_unary_expr-tokens (prefix o a) rest h v l stop =
        let (va, ra) = at_most-parts 1 a _ v in
        prefix-run o (expr_of g decls a) (tokens_of_tree a rest) rest
          (reads.2 a rest (omega (arith, h)) va ra stop) (expr_of-node g decls a va)
    parse_unary_expr-tokens (binary k a b) rest h v l stop =
        let positive =
          and-right (at_most (operator_level k) b (is_tree_of g decls true b))
            (ltb 0 (operator_level k))
            (and-right (at_most (suc (operator_level k)) a (is_tree_of g decls true a)) _ v) in
        absurd (ground (arith, positive, l))
    parse_unary_expr-tokens (choice c a b) rest h v l stop = absurd (omega (arith, l))
    parse_unary_expr-tokens (assign k a b) rest h v l stop = absurd (omega (arith, l))
    parse_unary_expr-tokens (comma a bs) rest h v l stop = absurd (omega (arith, l))
    parse_unary_expr-tokens no_items rest h v l stop = absurd (ground (arith, v))
    parse_unary_expr-tokens (one_item a) rest h v l stop = absurd (ground (arith, v))
    parse_unary_expr-tokens (more_items a bs) rest h v l stop = absurd (ground (arith, v))
    parse_unary_expr-tokens (identifier n) rest h v l stop =
        unary-postfix (identifier n) rest h v refl stop
    parse_unary_expr-tokens (number cs) rest h v l stop =
        unary-postfix (number cs) rest h v refl stop
    parse_unary_expr-tokens (character c) rest h v l stop =
        unary-postfix (character c) rest h v refl stop
    parse_unary_expr-tokens (strings s ss) rest h v l stop =
        unary-postfix (strings s ss) rest h v refl stop
    parse_unary_expr-tokens (grouped a) rest h v l stop =
        unary-postfix (grouped a) rest h v refl stop
    parse_unary_expr-tokens (index a i) rest h v l stop =
        unary-postfix (index a i) rest h v refl stop
    parse_unary_expr-tokens (call a args) rest h v l stop =
        unary-postfix (call a args) rest h v refl stop
    parse_unary_expr-tokens (dot a n) rest h v l stop = unary-postfix (dot a n) rest h v refl stop
    parse_unary_expr-tokens (arrow a n) rest h v l stop =
        unary-postfix (arrow a n) rest h v refl stop
    parse_unary_expr-tokens (increment a) rest h v l stop =
        unary-postfix (increment a) rest h v refl stop
    parse_unary_expr-tokens (decrement a) rest h v l stop =
        unary-postfix (decrement a) rest h v refl stop
