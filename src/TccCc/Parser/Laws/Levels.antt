-- ===== src/TccCc/Parser/Laws/Levels.antt =====
-- The levels of binary operators.
use mes_replacement.Prelude.{
  ℕ, zero, suc, ◌≤◌, ◌≡◌, refl, subst, ◌∙◌, List, ◌∷◌, some, true, false, ◌==◌, ◌||◌, ltb, inl, inr,
  Bool-cases, arith, length, and-left, and-right, ==→≡,
}
use mes_replacement.TccCc.Environment.{Token}
use mes_replacement.TccCc.Types.{Target, Decl}
use mes_replacement.TccCc.Exprs.{Expr, null, node, two_children}
use mes_replacement.TccCc.Parser.Specifiers.{Specified}
use mes_replacement.TccCc.Parser.Trees.{
  operation_result, Tree, identifier, number, character, strings, grouped, index, call, dot, arrow,
  increment, decrement, prefix, binary, choice, assign, comma, no_items, one_item, more_items,
  tokens_of_tree, sign, is_tree_of, at_most, nesting_of, expr_of, rank,
}
use mes_replacement.TccCc.Parser.{cur_kind, Parser, Parsers, operator_level}
use mes_replacement.TccCc.Parser.Nodes.{operation_type, operation, chain_loop}
use mes_replacement.TccCc.Parser.Grammar.{parse_level}
use mes_replacement.TccCc.Parser.Laws.Nodes.{
  is_node, expr_of-node, at_most-parts, operation_type-result,
}
use mes_replacement.TccCc.Parser.Laws.Basics.{is_quiet, operator-quiet, stops_at, Reads, ReadsAll}
use mes_replacement.TccCc.Parser.Laws.Lengths.{length-tokens_of_tree}
use mes_replacement.TccCc.Parser.Laws.Unary.{parse_unary_expr-tokens}

lower_stop : (n kind : ℕ) → stops_at (suc n) kind ≡ true → stops_at n kind ≡ true
lower_stop n kind h =
    let levels = and-right (is_quiet kind) _ h in
    let rest : (operator_level kind == 0 || ltb n (operator_level kind)) ≡ true =
      ground (arith, levels) in
    rw (and-left (is_quiet kind) _ h) rest

lower_rank : (n m : ℕ) → (m == suc n) ≡ false → suc m ≤ suc (suc n) → suc m ≤ suc n
lower_rank n m other h = ground (arith, other, h)

same_level : (n k : ℕ) → operator_level k ≡ suc n → stops_at n k ≡ true
same_level n k e =
    let quiet = operator-quiet k (omega (arith, e)) in
    let rest : (operator_level k == 0 || ltb n (operator_level k)) ≡ true = ground (arith, e) in
    rw quiet rest

module _ (g : Target) (decls : List Decl) (tagged : ℕ → List Token → Specified)
    (struct_of : List Token → Specified) (p : Parsers) where
  chain_loop-go :
      (n level k : ℕ) (below : Parser) (l r : Expr) (ts rest : List Token)
      → operator_level k ≡ level
      → is_node l ≡ true
      → is_node r ≡ true
      → below ts ≡ some (r, rest)
      → chain_loop g (suc n) level below l (sign k ∷ ts)
        ≡ chain_loop g n level below (two_children k (operation_result g k l r) l r) rest
  unfolding chain_loop
  chain_loop-go n level k below l null ts rest e hl hr run = absurd (ground (arith, hr))
  chain_loop-go n level k below l (node kind v s type es) ts rest e hl hr run =
      let same : (operator_level k == level) ≡ true = ground (arith, e) in
      let typed =
        subst
          (λ m.
            operation_type g m k l (node kind v s type es)
            ≡ some (operation_result g k l (node kind v s type es)))
          e (operation_type-result g decls k l (node kind v s type es) hl) in
      let made =
        two_children k (operation_result g k l (node kind v s type es)) l (node kind v s type es) in
      let go : operation g level k l (node kind v s type es)
            (λ x. chain_loop g n level below x rest)
          ≡ chain_loop g n level below made rest =
        rw (operation, typed) refl in
      rw (same, run) go

  chain_loop-ends :
      (n level : ℕ) (below : Parser) (e : Expr) (ts : List Token)
      → (operator_level (cur_kind ts) == level) ≡ false
      → chain_loop g (suc n) level below e ts ≡ some (e, ts)
  unfolding chain_loop
  chain_loop-ends n level below e ts h = rw h refl

  module _ (depth n : ℕ)
      (reads : Reads g decls
        (suc depth)
        (suc n)
        (stops_at n)
        (parse_level g decls tagged struct_of p n)) where
    -- Behind the tokens the loop goes on with the expression, with fuel for what is left.
    abbrev Reaches : Tree → List Token → Type 0
    Reaches a rest =
        (m : ℕ) × (length rest ≤ m)
        × (parse_level g decls tagged struct_of p (suc n) (tokens_of_tree a rest)
            ≡ chain_loop g (suc m) (suc n) (parse_level g decls tagged struct_of p n)
                (expr_of g decls a) rest)

    from_below :
        (a : Tree) (rest : List Token)
        → nesting_of a ≤ depth
        → is_tree_of g decls true a ≡ true
        → rank a ≤ suc n
        → stops_at n (cur_kind rest) ≡ true
        → Reaches a rest
    unfolding parse_level
    from_below a rest h v l stop =
        let run = reads a rest (omega (arith, h)) v l stop in
        (length rest, omega arith, rw run refl)

    -- One turn of the loop behind the tokens of the operand on the left.
    one_turn :
        (k : ℕ) (a b : Tree) (rest : List Token)
        → nesting_of b ≤ depth
        → is_tree_of g decls true a ≡ true
        → is_tree_of g decls true b ≡ true
        → rank b ≤ suc n
        → operator_level k ≡ suc n
        → stops_at n (cur_kind rest) ≡ true
        → Reaches a (sign k ∷ tokens_of_tree b rest)
        → Reaches (binary k a b) rest
    one_turn k a b rest h va vb l e stop (zero, room, run) = absurd (omega (arith, room))
    one_turn k a b rest h va vb l e stop (suc m, room, run) =
        let size = length-tokens_of_tree b rest in
        let step = reads b rest (omega (arith, h)) vb l stop in
        let turn =
          chain_loop-go (suc m) (suc n) k (parse_level g decls tagged struct_of p n)
            (expr_of g decls a) (expr_of g decls b) (tokens_of_tree b rest) rest e
            (expr_of-node g decls a va) (expr_of-node g decls b vb) step in
        (m, omega (arith, room, size), run ∙ turn)

    parse_level-Reaches :
        (a : Tree) (rest : List Token)
        → n ≤ 8
        → nesting_of a ≤ depth
        → is_tree_of g decls true a ≡ true
        → rank a ≤ suc (suc n)
        → stops_at n (cur_kind rest) ≡ true
        → Reaches a rest
    parse_level-Reaches (binary k a b) rest small h v l stop =
        elim (Bool-cases (operator_level k == suc n)) [
          | inr other ↦
              from_below (binary k a b) rest h v (lower_rank n (operator_level k) other l) stop
          | inl same ↦
              let e = ==→≡ (operator_level k) (suc n) same in
              let (va, ra) =
                at_most-parts (suc (operator_level k)) a _
                  (and-left (at_most (suc (operator_level k)) a (is_tree_of g decls true a)) _ v) in
              let right =
                and-right (at_most (suc (operator_level k)) a (is_tree_of g decls true a)) _ v in
              let (vb, rb) =
                at_most-parts (operator_level k) b _
                  (and-left (at_most (operator_level k) b (is_tree_of g decls true b)) _ right) in
              one_turn k a b rest (omega (arith, h)) va vb (omega (arith, rb, e)) e stop (
                parse_level-Reaches a (sign k ∷ tokens_of_tree b rest) small (omega (arith, h)) va
                  (omega (arith, ra, e)) (same_level n k e))
        ]
    parse_level-Reaches (identifier n) rest small h v l stop =
        from_below (identifier n) rest h v (omega arith) stop
    parse_level-Reaches (number cs) rest small h v l stop =
        from_below (number cs) rest h v (omega arith) stop
    parse_level-Reaches (character c) rest small h v l stop =
        from_below (character c) rest h v (omega arith) stop
    parse_level-Reaches (strings s ss) rest small h v l stop =
        from_below (strings s ss) rest h v (omega arith) stop
    parse_level-Reaches (grouped a) rest small h v l stop =
        from_below (grouped a) rest h v (omega arith) stop
    parse_level-Reaches (index a i) rest small h v l stop =
        from_below (index a i) rest h v (omega arith) stop
    parse_level-Reaches (call a args) rest small h v l stop =
        from_below (call a args) rest h v (omega arith) stop
    parse_level-Reaches (dot a n) rest small h v l stop =
        from_below (dot a n) rest h v (omega arith) stop
    parse_level-Reaches (arrow a n) rest small h v l stop =
        from_below (arrow a n) rest h v (omega arith) stop
    parse_level-Reaches (increment a) rest small h v l stop =
        from_below (increment a) rest h v (omega arith) stop
    parse_level-Reaches (decrement a) rest small h v l stop =
        from_below (decrement a) rest h v (omega arith) stop
    parse_level-Reaches (prefix o a) rest small h v l stop =
        from_below (prefix o a) rest h v (omega arith) stop
    parse_level-Reaches (choice c a b) rest small h v l stop = absurd (omega (arith, small, l))
    parse_level-Reaches (assign k a b) rest small h v l stop = absurd (omega (arith, small, l))
    parse_level-Reaches (comma a bs) rest small h v l stop = absurd (omega (arith, small, l))
    parse_level-Reaches no_items rest small h v l stop = absurd (ground (arith, v))
    parse_level-Reaches (one_item a) rest small h v l stop = absurd (ground (arith, v))
    parse_level-Reaches (more_items a bs) rest small h v l stop = absurd (ground (arith, v))

    next_level :
        n ≤ 8
        → Reads g decls
            (suc depth)
            (suc (suc n))
            (stops_at (suc n))
            (parse_level g decls tagged struct_of p (suc n))
    next_level small a rest h v l stop =
        let (m, room, run) =
          parse_level-Reaches a rest small (omega (arith, h)) v l
            (lower_stop n (cur_kind rest) stop) in
        let levels = and-right (is_quiet (cur_kind rest)) _ stop in
        let other : (operator_level (cur_kind rest) == suc n) ≡ false = ground (arith, levels) in
        run
        ∙ chain_loop-ends m (suc n) (parse_level g decls tagged struct_of p n) (expr_of g decls a)
            rest other

  -- Each level reads the trees of its operators.
  pub parse_level-Reads :
      (depth : ℕ)
      → ReadsAll g decls depth p
      → (n : ℕ) → n ≤ 9
      → Reads g decls (suc depth) (suc n) (stops_at n) (parse_level g decls tagged struct_of p n)
  unfolding parse_level
  parse_level-Reads depth reads zero h a rest k v l stop =
      parse_unary_expr-tokens g decls tagged struct_of p depth reads a rest (omega (arith, k)) v l
        stop
  parse_level-Reads depth reads (suc n) h a rest k v l stop =
      next_level depth n (parse_level-Reads depth reads n (omega (arith, h))) (omega (arith, h)) a
        rest k v l stop
