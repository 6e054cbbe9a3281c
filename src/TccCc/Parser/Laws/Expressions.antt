-- ===== src/TccCc/Parser/Laws/Expressions.antt =====
-- Conditional expressions, assignments and whole expressions.
use mes_replacement.Prelude.{
  ℕ, suc, ◌≤◌, ◌≡◌, refl, List, ◌∷◌, some, true, false, ◌==◌, ltb, arith, and-left, and-right,
}
use mes_replacement.TccCc.Environment.{Token}
use mes_replacement.TccCc.Types.{Target, Decl}
use mes_replacement.TccCc.Parser.Specifiers.{Specified}
use mes_replacement.TccCc.Parser.Nodes.{max_items}
use mes_replacement.TccCc.Parser.Trees.{
  Tree, identifier, number, character, strings, grouped, index, call, dot, arrow, increment,
  decrement, prefix, binary, choice, assign, comma, no_items, one_item, more_items, tokens_of_tree,
  sign, is_tree_of, at_most, nesting_of, items_of, expr_of, rank,
}
use mes_replacement.TccCc.Parser.{cur_kind, Parsers, assigns}
use mes_replacement.TccCc.Parser.Grammar.{
  parse_conditional_expr, assignment_loop, parse_assignment_expr, parse_expr,
}
use mes_replacement.TccCc.Parser.Laws.Nodes.{node-form, expr_of-node, items-node, at_most-parts}
use mes_replacement.TccCc.Parser.Laws.Basics.{
  is_quiet, stops_at, ends_conditional, ends_assignment, ends_expr, ReadsAll, assigns-ends,
}
use mes_replacement.TccCc.Parser.Laws.Items.{items-fit, parse_list-tokens}
use mes_replacement.TccCc.Parser.Laws.Levels.{parse_level-Reads}
use mes_replacement.TccCc.Parser.Laws.Steps.{
  operator_rank, conditional_end, assignment_end, assign_end, expr_end, comma_end,
}

module _ (g : Target) (decls : List Decl) (tagged : ℕ → List Token → Specified)
    (struct_of : List Token → Specified) (p : Parsers) where
  module _ (depth : ℕ) (reads : ReadsAll g decls depth p) where
    conditional-level :
        (a : Tree) (rest : List Token)
        → nesting_of a ≤ depth
        → is_tree_of g decls true a ≡ true
        → rank a ≤ 10
        → ends_conditional (cur_kind rest) ≡ true
        → parse_conditional_expr g decls tagged struct_of p (tokens_of_tree a rest)
          ≡ some (expr_of g decls a, rest)
    unfolding parse_conditional_expr
    conditional-level a rest h v l stop =
        let quiet = and-left (stops_at 9 (cur_kind rest)) _ stop in
        let other : (cur_kind rest == b'?') ≡ false =
          ground (arith, and-right (stops_at 9 (cur_kind rest)) _ stop) in
        let run =
          parse_level-Reads g decls tagged struct_of p depth reads 9 (omega arith) a rest
            (omega (arith, h)) v l quiet in
        conditional_end g decls tagged struct_of p (tokens_of_tree a rest) rest (expr_of g decls a)
          run other

    pub parse_conditional_expr-tokens :
        (a : Tree) (rest : List Token)
        → nesting_of a ≤ depth
        → is_tree_of g decls true a ≡ true
        → rank a ≤ 11
        → ends_conditional (cur_kind rest) ≡ true
        → parse_conditional_expr g decls tagged struct_of p (tokens_of_tree a rest)
          ≡ some (expr_of g decls a, rest)
    unfolding parse_conditional_expr is_quiet
    parse_conditional_expr-tokens (choice c a b) rest h v l stop =
        let (vc, rc) =
          at_most-parts 10 c _ (and-left (at_most 10 c (is_tree_of g decls true c)) _ v) in
        let others = and-right (at_most 10 c (is_tree_of g decls true c)) _ v in
        let (va, ra) =
          at_most-parts 10 a _ (and-left (at_most 10 a (is_tree_of g decls true a)) _ others) in
        let (vb, rb) =
          at_most-parts 11 b _ (and-right (at_most 10 a (is_tree_of g decls true a)) _ others) in
        let level = parse_level-Reads g decls tagged struct_of p depth reads 9 (omega arith) in
        let bs = sign b':' ∷ tokens_of_tree b rest in
        let run_c = level c (sign b'?' ∷ tokens_of_tree a bs) (omega (arith, h)) vc rc refl in
        let run_a = level a bs (omega (arith, h)) va ra refl in
        let run_b = reads.3 b rest (omega (arith, h)) vb rb stop in
        let (_, _, _, _, _, f) = node-form (expr_of g decls a) (expr_of-node g decls a va) in
        let (_, _, _, _, _, e) = node-form (expr_of g decls b) (expr_of-node g decls b vb) in
        rw (run_c, run_a, f, run_b, e) refl
    parse_conditional_expr-tokens (binary k a b) rest h v l stop =
        conditional-level (binary k a b) rest h v (operator_rank k) stop
    parse_conditional_expr-tokens (identifier n) rest h v l stop =
        conditional-level (identifier n) rest h v (omega arith) stop
    parse_conditional_expr-tokens (number cs) rest h v l stop =
        conditional-level (number cs) rest h v (omega arith) stop
    parse_conditional_expr-tokens (character c) rest h v l stop =
        conditional-level (character c) rest h v (omega arith) stop
    parse_conditional_expr-tokens (strings s ss) rest h v l stop =
        conditional-level (strings s ss) rest h v (omega arith) stop
    parse_conditional_expr-tokens (grouped a) rest h v l stop =
        conditional-level (grouped a) rest h v (omega arith) stop
    parse_conditional_expr-tokens (index a i) rest h v l stop =
        conditional-level (index a i) rest h v (omega arith) stop
    parse_conditional_expr-tokens (call a args) rest h v l stop =
        conditional-level (call a args) rest h v (omega arith) stop
    parse_conditional_expr-tokens (dot a n) rest h v l stop =
        conditional-level (dot a n) rest h v (omega arith) stop
    parse_conditional_expr-tokens (arrow a n) rest h v l stop =
        conditional-level (arrow a n) rest h v (omega arith) stop
    parse_conditional_expr-tokens (increment a) rest h v l stop =
        conditional-level (increment a) rest h v (omega arith) stop
    parse_conditional_expr-tokens (decrement a) rest h v l stop =
        conditional-level (decrement a) rest h v (omega arith) stop
    parse_conditional_expr-tokens (prefix o a) rest h v l stop =
        conditional-level (prefix o a) rest h v (omega arith) stop
    parse_conditional_expr-tokens (assign k a b) rest h v l stop = absurd (omega (arith, l))
    parse_conditional_expr-tokens (comma a bs) rest h v l stop = absurd (omega (arith, l))
    parse_conditional_expr-tokens no_items rest h v l stop = absurd (ground (arith, v))
    parse_conditional_expr-tokens (one_item a) rest h v l stop = absurd (ground (arith, v))
    parse_conditional_expr-tokens (more_items a bs) rest h v l stop = absurd (ground (arith, v))

    assignment-conditional :
        (a : Tree) (rest : List Token)
        → nesting_of a ≤ depth
        → is_tree_of g decls true a ≡ true
        → rank a ≤ 11
        → ends_assignment (cur_kind rest) ≡ true
        → parse_assignment_expr g decls tagged struct_of p (tokens_of_tree a rest)
          ≡ some (expr_of g decls a, rest)
    unfolding parse_assignment_expr assignment_loop
    assignment-conditional a rest h v l stop =
        let ends = and-left (ends_conditional (cur_kind rest)) _ stop in
        let other : assigns (cur_kind rest) ≡ false =
          ground (arith, and-right (ends_conditional (cur_kind rest)) _ stop) in
        let run = parse_conditional_expr-tokens a rest h v l ends in
        assignment_end g decls tagged struct_of p (tokens_of_tree a rest) rest (expr_of g decls a)
          run (expr_of-node g decls a v) other

    pub parse_assignment_expr-tokens :
        (a : Tree) (rest : List Token)
        → nesting_of a ≤ depth
        → is_tree_of g decls true a ≡ true
        → rank a ≤ 12
        → ends_assignment (cur_kind rest) ≡ true
        → parse_assignment_expr g decls tagged struct_of p (tokens_of_tree a rest)
          ≡ some (expr_of g decls a, rest)
    unfolding parse_assignment_expr assignment_loop
    parse_assignment_expr-tokens (assign k a b) rest h v l stop =
        let (va, ra) =
          at_most-parts 11 a _ (and-left (at_most 11 a (is_tree_of g decls true a)) _ v) in
        let others = and-right (at_most 11 a (is_tree_of g decls true a)) _ v in
        let (vb, rb) =
          at_most-parts 12 b _ (and-left (at_most 12 b (is_tree_of g decls true b)) _ others) in
        let is_assign = and-right (at_most 12 b (is_tree_of g decls true b)) (assigns k) others in
        let other : assigns (cur_kind rest) ≡ false =
          ground (arith, and-right (ends_conditional (cur_kind rest)) _ stop) in
        let run_a =
          parse_conditional_expr-tokens a (sign k ∷ tokens_of_tree b rest) (omega (arith, h)) va ra
            (assigns-ends k is_assign) in
        let run_b = reads.1 b rest (omega (arith, h)) vb rb stop in
        assign_end g decls tagged struct_of p (tokens_of_tree (assign k a b) rest)
          (tokens_of_tree b rest) rest k (expr_of g decls a) (expr_of g decls b) run_a
          (expr_of-node g decls a va) is_assign run_b (expr_of-node g decls b vb) other
    parse_assignment_expr-tokens (binary k a b) rest h v l stop =
        let r = operator_rank k in
        assignment-conditional (binary k a b) rest h v (omega (arith, r)) stop
    parse_assignment_expr-tokens (identifier n) rest h v l stop =
        assignment-conditional (identifier n) rest h v (omega arith) stop
    parse_assignment_expr-tokens (number cs) rest h v l stop =
        assignment-conditional (number cs) rest h v (omega arith) stop
    parse_assignment_expr-tokens (character c) rest h v l stop =
        assignment-conditional (character c) rest h v (omega arith) stop
    parse_assignment_expr-tokens (strings s ss) rest h v l stop =
        assignment-conditional (strings s ss) rest h v (omega arith) stop
    parse_assignment_expr-tokens (grouped a) rest h v l stop =
        assignment-conditional (grouped a) rest h v (omega arith) stop
    parse_assignment_expr-tokens (index a i) rest h v l stop =
        assignment-conditional (index a i) rest h v (omega arith) stop
    parse_assignment_expr-tokens (call a args) rest h v l stop =
        assignment-conditional (call a args) rest h v (omega arith) stop
    parse_assignment_expr-tokens (dot a n) rest h v l stop =
        assignment-conditional (dot a n) rest h v (omega arith) stop
    parse_assignment_expr-tokens (arrow a n) rest h v l stop =
        assignment-conditional (arrow a n) rest h v (omega arith) stop
    parse_assignment_expr-tokens (increment a) rest h v l stop =
        assignment-conditional (increment a) rest h v (omega arith) stop
    parse_assignment_expr-tokens (decrement a) rest h v l stop =
        assignment-conditional (decrement a) rest h v (omega arith) stop
    parse_assignment_expr-tokens (prefix o a) rest h v l stop =
        assignment-conditional (prefix o a) rest h v (omega arith) stop
    parse_assignment_expr-tokens (choice c a b) rest h v l stop =
        assignment-conditional (choice c a b) rest h v (omega arith) stop
    parse_assignment_expr-tokens (comma a bs) rest h v l stop = absurd (omega (arith, l))
    parse_assignment_expr-tokens no_items rest h v l stop = absurd (ground (arith, v))
    parse_assignment_expr-tokens (one_item a) rest h v l stop = absurd (ground (arith, v))
    parse_assignment_expr-tokens (more_items a bs) rest h v l stop = absurd (ground (arith, v))

    expr-assignment :
        (a : Tree) (rest : List Token)
        → nesting_of a ≤ depth
        → is_tree_of g decls true a ≡ true
        → rank a ≤ 12
        → ends_expr (cur_kind rest) ≡ true
        → parse_expr g decls tagged struct_of p (tokens_of_tree a rest)
          ≡ some (expr_of g decls a, rest)
    unfolding parse_expr
    expr-assignment a rest h v l stop =
        let ends = and-left (ends_assignment (cur_kind rest)) _ stop in
        let other : (cur_kind rest == b',') ≡ false =
          ground (arith, and-right (ends_assignment (cur_kind rest)) _ stop) in
        let run = parse_assignment_expr-tokens a rest h v l ends in
        expr_end g decls tagged struct_of p (tokens_of_tree a rest) rest (expr_of g decls a) run
          (expr_of-node g decls a v) other

    pub parse_expr-tokens :
        (a : Tree) (rest : List Token)
        → nesting_of a ≤ depth
        → is_tree_of g decls true a ≡ true
        → ends_expr (cur_kind rest) ≡ true
        → parse_expr g decls tagged struct_of p (tokens_of_tree a rest)
          ≡ some (expr_of g decls a, rest)
    unfolding parse_expr is_quiet
    parse_expr-tokens (comma a bs) rest h v stop =
        let (va, ra) =
          at_most-parts 12 a _ (and-left (at_most 12 a (is_tree_of g decls true a)) _ v) in
        let others = and-right (at_most 12 a (is_tree_of g decls true a)) _ v in
        let vs = and-left (is_tree_of g decls false bs) _ others in
        let ends = and-left (ends_assignment (cur_kind rest)) _ stop in
        let other : (cur_kind rest == b',') ≡ false =
          ground (arith, and-right (ends_assignment (cur_kind rest)) _ stop) in
        let us = tokens_of_tree bs rest in
        let number = and-right (is_tree_of g decls false bs) _ others in
        let run = parse_assignment_expr-tokens a (sign b',' ∷ us) (omega (arith, h)) va ra refl in
        let behind =
          parse_list-tokens g decls (suc depth) (parse_assignment_expr g decls tagged struct_of p)
            (λ x xs k. parse_assignment_expr-tokens x xs (omega (arith, k))) max_items bs rest
            (items-fit bs (and-right (ltb 0 (items_of bs)) _ number))
            (and-left (ltb 0 (items_of bs)) _ number) (omega (arith, h)) vs ends other in
        comma_end g decls tagged struct_of p (tokens_of_tree (comma a bs) rest) us rest
          (expr_of g decls a) (expr_of g decls bs) run (expr_of-node g decls a va) behind
          (items-node g decls bs vs)
    parse_expr-tokens (binary k a b) rest h v stop =
        let r = operator_rank k in expr-assignment (binary k a b) rest h v (omega (arith, r)) stop
    parse_expr-tokens (identifier n) rest h v stop =
        expr-assignment (identifier n) rest h v (omega arith) stop
    parse_expr-tokens (number cs) rest h v stop =
        expr-assignment (number cs) rest h v (omega arith) stop
    parse_expr-tokens (character c) rest h v stop =
        expr-assignment (character c) rest h v (omega arith) stop
    parse_expr-tokens (strings s ss) rest h v stop =
        expr-assignment (strings s ss) rest h v (omega arith) stop
    parse_expr-tokens (grouped a) rest h v stop =
        expr-assignment (grouped a) rest h v (omega arith) stop
    parse_expr-tokens (index a i) rest h v stop =
        expr-assignment (index a i) rest h v (omega arith) stop
    parse_expr-tokens (call a args) rest h v stop =
        expr-assignment (call a args) rest h v (omega arith) stop
    parse_expr-tokens (dot a n) rest h v stop =
        expr-assignment (dot a n) rest h v (omega arith) stop
    parse_expr-tokens (arrow a n) rest h v stop =
        expr-assignment (arrow a n) rest h v (omega arith) stop
    parse_expr-tokens (increment a) rest h v stop =
        expr-assignment (increment a) rest h v (omega arith) stop
    parse_expr-tokens (decrement a) rest h v stop =
        expr-assignment (decrement a) rest h v (omega arith) stop
    parse_expr-tokens (prefix o a) rest h v stop =
        expr-assignment (prefix o a) rest h v (omega arith) stop
    parse_expr-tokens (choice c a b) rest h v stop =
        expr-assignment (choice c a b) rest h v (omega arith) stop
    parse_expr-tokens (assign k a b) rest h v stop =
        expr-assignment (assign k a b) rest h v (omega arith) stop
    parse_expr-tokens no_items rest h v stop = absurd (ground (arith, v))
    parse_expr-tokens (one_item a) rest h v stop = absurd (ground (arith, v))
    parse_expr-tokens (more_items a bs) rest h v stop = absurd (ground (arith, v))
