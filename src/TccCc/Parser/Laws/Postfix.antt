-- ===== src/TccCc/Parser/Laws/Postfix.antt =====
-- Postfix expressions.
use mes_replacement.Prelude.{
  ℕ, zero, suc, ◌≤◌, ◌<◌, ◌≡◌, refl, ◌∙◌, List, ◌∷◌, some, true, false, ◌==◌, leb, arith, length,
  and-left, and-right,
}
use mes_replacement.TccCc.Environment.{Token}
use mes_replacement.TccCc.Tokens.Kinds.{tk_inc, tk_dec, tk_arrow}
use mes_replacement.TccCc.Conditions.Trees.{mark}
use mes_replacement.TccCc.Types.{Target, Decl}
use mes_replacement.TccCc.Parser.{cur_kind, Parsers}
use mes_replacement.TccCc.Parser.Specifiers.{Specified}
use mes_replacement.TccCc.Parser.Grammar.{
  parse_arguments, parse_primary_expr, postfix_loop, parse_postfix_expr,
}
use mes_replacement.TccCc.Parser.Nodes.{max_items}
use mes_replacement.TccCc.Parser.Trees.{
  Tree, identifier, number, character, strings, grouped, index, call, dot, arrow, increment,
  decrement, prefix, binary, choice, assign, comma, no_items, one_item, more_items, tokens_of_tree,
  sign, is_tree_of, at_most, nesting_of, items_of, expr_of, rank,
}
use mes_replacement.TccCc.Parser.Laws.Nodes.{
  node-form, expr_of-node, items-node, at_most-parts, rank-bound,
}
use mes_replacement.TccCc.Parser.Laws.Basics.{is_quiet, ReadsAll, quiet-parts}
use mes_replacement.TccCc.Parser.Laws.Lengths.{length-tokens_of_tree}
use mes_replacement.TccCc.Parser.Laws.Starts.{starts_tree}
use mes_replacement.TccCc.Parser.Laws.Primary.{
  parse_primary_expr-identifier, parse_primary_expr-number, parse_primary_expr-character,
  parse_primary_expr-strings, parse_primary_expr-grouped,
}
use mes_replacement.TccCc.Parser.Laws.Items.{items-fit, parse_list-tokens}
use mes_replacement.TccCc.Parser.Laws.Turns.{
  ltb-suc, index-loop, call-loop, dot-loop, arrow-loop, increment-loop, decrement-loop,
}

module _ (g : Target) (decls : List Decl) (tagged : ℕ → List Token → Specified)
    (struct_of : List Token → Specified) (p : Parsers) where
  -- Behind the tokens the loop goes on with the expression, with fuel for what is left.
  abbrev Reaches : Tree → List Token → Type 0
  Reaches a rest =
      (n : ℕ) × (length rest ≤ n)
      × (parse_postfix_expr g decls tagged struct_of p (tokens_of_tree a rest)
          ≡ postfix_loop g decls tagged struct_of p (suc n) (expr_of g decls a) rest)

  from_primary :
      (a : Tree) (rest : List Token)
      → is_tree_of g decls true a ≡ true
      → parse_primary_expr g decls tagged struct_of p (tokens_of_tree a rest)
        ≡ some (expr_of g decls a, rest)
      → Reaches a rest
  unfolding parse_postfix_expr
  from_primary a rest v run =
      let (_, _, _, _, _, f) = node-form (expr_of g decls a) (expr_of-node g decls a v) in
      (length rest, omega arith, rw (parse_postfix_expr, run, f) refl)

  -- One turn of the loop behind the tokens of a shorter expression.
  go_on :
      (a b : Tree) (k : List Token) (rest : List Token)
      → Reaches a k
      → length rest < length k
      → ((n : ℕ)
          → postfix_loop g decls tagged struct_of p (suc n) (expr_of g decls a) k
            ≡ postfix_loop g decls tagged struct_of p n (expr_of g decls b) rest)
      → parse_postfix_expr g decls tagged struct_of p (tokens_of_tree b rest)
        ≡ parse_postfix_expr g decls tagged struct_of p (tokens_of_tree a k)
      → Reaches b rest
  go_on a b k rest (zero, room, run) shorter turn same = absurd (omega (arith, room, shorter))
  go_on a b k rest (suc n, room, run) shorter turn same =
      (n, omega (arith, room, shorter), same ∙ run ∙ turn (suc n))

  module _ (depth : ℕ) (reads : ReadsAll g decls depth p) where
    parse_arguments-tokens :
        (a : Tree) (rest : List Token)
        → nesting_of a < depth
        → is_tree_of g decls false a ≡ true
        → leb (items_of a) max_items ≡ true
        → parse_arguments g decls tagged struct_of p (tokens_of_tree a (sign b')' ∷ rest))
          ≡ some (expr_of g decls a, sign b')' ∷ rest)
    unfolding parse_arguments is_quiet
    parse_arguments-tokens no_items rest h v fits = refl
    parse_arguments-tokens (one_item a) rest h v fits =
        let other = starts_tree g decls a (sign b')' ∷ rest) (at_most-parts 12 a _ v).0 in
        rw other (
          parse_list-tokens g decls depth p.assignment (reads.1) max_items (one_item a)
            (sign b')' ∷ rest) (omega arith) refl h v refl refl)
    parse_arguments-tokens (more_items a bs) rest h v fits =
        let va = at_most-parts 12 a _ (and-left (at_most 12 a (is_tree_of g decls true a)) _ v) in
        let other = starts_tree g decls a (sign b',' ∷ tokens_of_tree bs (sign b')' ∷ rest)) va.0 in
        rw other (
          parse_list-tokens g decls depth p.assignment (reads.1) max_items (more_items a bs)
            (sign b')' ∷ rest) (items-fit (more_items a bs) fits) (ltb-suc (items_of bs)) h v refl
            refl)
    parse_arguments-tokens (identifier n) rest h v fits = absurd (ground (arith, v))
    parse_arguments-tokens (number cs) rest h v fits = absurd (ground (arith, v))
    parse_arguments-tokens (character c) rest h v fits = absurd (ground (arith, v))
    parse_arguments-tokens (strings s ss) rest h v fits = absurd (ground (arith, v))
    parse_arguments-tokens (grouped a) rest h v fits = absurd (ground (arith, v))
    parse_arguments-tokens (index a i) rest h v fits = absurd (ground (arith, v))
    parse_arguments-tokens (call a args) rest h v fits = absurd (ground (arith, v))
    parse_arguments-tokens (dot a n) rest h v fits = absurd (ground (arith, v))
    parse_arguments-tokens (arrow a n) rest h v fits = absurd (ground (arith, v))
    parse_arguments-tokens (increment a) rest h v fits = absurd (ground (arith, v))
    parse_arguments-tokens (decrement a) rest h v fits = absurd (ground (arith, v))
    parse_arguments-tokens (prefix o a) rest h v fits = absurd (ground (arith, v))
    parse_arguments-tokens (binary k a b) rest h v fits = absurd (ground (arith, v))
    parse_arguments-tokens (choice c a b) rest h v fits = absurd (ground (arith, v))
    parse_arguments-tokens (assign k a b) rest h v fits = absurd (ground (arith, v))
    parse_arguments-tokens (comma a bs) rest h v fits = absurd (ground (arith, v))

    parse_postfix_expr-Reaches :
        (a : Tree) (rest : List Token)
        → nesting_of a ≤ depth
        → is_tree_of g decls true a ≡ true
        → rank a ≡ 0
        → (cur_kind rest == b'"') ≡ false
        → Reaches a rest
    unfolding is_quiet
    parse_postfix_expr-Reaches (identifier n) rest h v z quiet =
        from_primary (identifier n) rest v
          (parse_primary_expr-identifier g decls tagged struct_of p n rest v)
    parse_postfix_expr-Reaches (number cs) rest h v z quiet =
        from_primary (number cs) rest v
          (parse_primary_expr-number g decls tagged struct_of p cs rest)
    parse_postfix_expr-Reaches (character c) rest h v z quiet =
        from_primary (character c) rest v
          (parse_primary_expr-character g decls tagged struct_of p c rest)
    parse_postfix_expr-Reaches (strings s ss) rest h v z quiet =
        from_primary (strings s ss) rest v
          (parse_primary_expr-strings g decls tagged struct_of p s ss rest v quiet)
    parse_postfix_expr-Reaches (grouped a) rest h v z quiet = from_primary (grouped a) rest v (
        parse_primary_expr-grouped g decls tagged struct_of p depth a rest (reads.0)
          (omega (arith, h)) v (rank-bound a))
    parse_postfix_expr-Reaches (index a i) rest h v z quiet =
        let (va, ra) =
          at_most-parts 0 a _ (and-left (at_most 0 a (is_tree_of g decls true a)) _ v) in
        let vi = and-right (at_most 0 a (is_tree_of g decls true a)) _ v in
        let ts = tokens_of_tree i (sign b']' ∷ rest) in
        let size = length-tokens_of_tree i (sign b']' ∷ rest) in
        let run = reads.0 i (sign b']' ∷ rest) (omega (arith, h)) vi (rank-bound i) refl in
        let behind =
          parse_postfix_expr-Reaches a (sign b'[' ∷ ts) (omega (arith, h)) va (omega (arith, ra))
            refl in
        go_on a (index a i) (sign b'[' ∷ ts) rest behind (omega (arith, size))
          (λ n.
            index-loop g decls tagged struct_of p n (expr_of g decls a) (expr_of g decls i) ts rest
              run (expr_of-node g decls i vi))
          refl
    parse_postfix_expr-Reaches (call a args) rest h v z quiet =
        let (va, ra) =
          at_most-parts 0 a _ (and-left (at_most 0 a (is_tree_of g decls true a)) _ v) in
        let both = and-right (at_most 0 a (is_tree_of g decls true a)) _ v in
        let vs = and-left (is_tree_of g decls false args) _ both in
        let fits = and-right (is_tree_of g decls false args) _ both in
        let ts = tokens_of_tree args (sign b')' ∷ rest) in
        let size = length-tokens_of_tree args (sign b')' ∷ rest) in
        let run = parse_arguments-tokens args rest (omega (arith, h)) vs fits in
        let behind =
          parse_postfix_expr-Reaches a (sign b'(' ∷ ts) (omega (arith, h)) va (omega (arith, ra))
            refl in
        go_on a (call a args) (sign b'(' ∷ ts) rest behind (omega (arith, size))
          (λ n.
            call-loop g decls tagged struct_of p n (expr_of g decls a) (expr_of g decls args) ts
              rest run (items-node g decls args vs))
          refl
    parse_postfix_expr-Reaches (dot a n) rest h v z quiet =
        let (va, ra) = at_most-parts 0 a _ v in
        let behind =
          parse_postfix_expr-Reaches a (sign b'.' ∷ mark b'i' n ∷ rest) h va (omega (arith, ra))
            refl in
        go_on a (dot a n) (sign b'.' ∷ mark b'i' n ∷ rest) rest behind (omega arith)
          (λ m. dot-loop g decls tagged struct_of p m (expr_of g decls a) n rest) refl
    parse_postfix_expr-Reaches (arrow a n) rest h v z quiet =
        let (va, ra) =
          at_most-parts 0 a _ (and-left (at_most 0 a (is_tree_of g decls true a)) _ v) in
        let typed = and-right (at_most 0 a (is_tree_of g decls true a)) _ v in
        let behind =
          parse_postfix_expr-Reaches a (sign tk_arrow ∷ mark b'i' n ∷ rest) h va (omega (arith, ra))
            refl in
        go_on a (arrow a n) (sign tk_arrow ∷ mark b'i' n ∷ rest) rest behind (omega arith)
          (λ m. arrow-loop g decls tagged struct_of p m (expr_of g decls a) n rest typed) refl
    parse_postfix_expr-Reaches (increment a) rest h v z quiet =
        let (va, ra) = at_most-parts 0 a _ v in
        let behind =
          parse_postfix_expr-Reaches a (sign tk_inc ∷ rest) h va (omega (arith, ra)) refl in
        go_on a (increment a) (sign tk_inc ∷ rest) rest behind (omega arith)
          (λ m. increment-loop g decls tagged struct_of p m (expr_of g decls a) rest) refl
    parse_postfix_expr-Reaches (decrement a) rest h v z quiet =
        let (va, ra) = at_most-parts 0 a _ v in
        let behind =
          parse_postfix_expr-Reaches a (sign tk_dec ∷ rest) h va (omega (arith, ra)) refl in
        go_on a (decrement a) (sign tk_dec ∷ rest) rest behind (omega arith)
          (λ m. decrement-loop g decls tagged struct_of p m (expr_of g decls a) rest) refl
    parse_postfix_expr-Reaches (prefix o a) rest h v z quiet = absurd (omega (arith, z))
    parse_postfix_expr-Reaches (binary k a b) rest h v z quiet = absurd (omega (arith, z))
    parse_postfix_expr-Reaches (choice c a b) rest h v z quiet = absurd (omega (arith, z))
    parse_postfix_expr-Reaches (assign k a b) rest h v z quiet = absurd (omega (arith, z))
    parse_postfix_expr-Reaches (comma a bs) rest h v z quiet = absurd (omega (arith, z))
    parse_postfix_expr-Reaches no_items rest h v z quiet = absurd (ground (arith, v))
    parse_postfix_expr-Reaches (one_item a) rest h v z quiet = absurd (ground (arith, v))
    parse_postfix_expr-Reaches (more_items a bs) rest h v z quiet = absurd (ground (arith, v))

    pub parse_postfix_expr-tokens :
        (a : Tree) (rest : List Token)
        → nesting_of a ≤ depth
        → is_tree_of g decls true a ≡ true
        → rank a ≡ 0
        → is_quiet (cur_kind rest) ≡ true
        → parse_postfix_expr g decls tagged struct_of p (tokens_of_tree a rest)
          ≡ some (expr_of g decls a, rest)
    unfolding postfix_loop
    parse_postfix_expr-tokens a rest h v z quiet =
        let (x₁, x₂, x₃, x₄, x₅, x₆, x₇) = quiet-parts (cur_kind rest) quiet in
        let (n, room, run) = parse_postfix_expr-Reaches a rest h v z x₇ in
        run ∙ rw (x₁, x₂, x₃, x₄, x₅, x₆) refl
