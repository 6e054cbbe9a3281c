-- ===== src/TccCc/Parser/Laws/Items.antt =====
-- Lists of expressions with commas between them.
use mes_replacement.Prelude.{
  ℕ, zero, suc, ◌≤◌, ◌<◌, ◌≡◌, refl, List, ◌∷◌, some, true, false, ◌==◌, leb, ltb, arith, and-left,
  and-right,
}
use mes_replacement.TccCc.Environment.{Token}
use mes_replacement.TccCc.Types.{Target, Decl}
use mes_replacement.TccCc.Parser.{cur_kind, Parser}
use mes_replacement.TccCc.Parser.Nodes.{max_items, parse_list}
use mes_replacement.TccCc.Parser.Trees.{
  Tree, identifier, number, character, strings, grouped, index, call, dot, arrow, increment,
  decrement, prefix, binary, choice, assign, comma, no_items, one_item, more_items, tokens_of_tree,
  sign, is_tree_of, at_most, nesting_of, items_of, expr_of,
}
use mes_replacement.TccCc.Parser.Laws.Nodes.{node-form, expr_of-node, items-node, at_most-parts}
use mes_replacement.TccCc.Parser.Laws.Basics.{is_quiet, ends_assignment, Reads}

pub items-fit : (a : Tree) → leb (items_of a) max_items ≡ true → items_of a ≤ max_items
items-fit a h = ground (arith, h)

module _ (g : Target) (decls : List Decl) (depth : ℕ) (item : Parser)
    (reads : Reads g decls depth 12 ends_assignment item) where
  -- As many items as there is fuel, and no comma behind the last one.
  pub parse_list-tokens :
      (n : ℕ) (a : Tree) (rest : List Token)
      → items_of a ≤ n
      → ltb 0 (items_of a) ≡ true
      → nesting_of a < depth
      → is_tree_of g decls false a ≡ true
      → ends_assignment (cur_kind rest) ≡ true
      → (cur_kind rest == b',') ≡ false
      → parse_list n item (tokens_of_tree a rest) ≡ some (expr_of g decls a, rest)
  unfolding parse_list is_quiet
  parse_list-tokens (suc n) (one_item a) rest room some_item h v stop no_comma =
      let (va, ra) = at_most-parts 12 a _ v in
      let run = reads a rest h va ra stop in
      let (_, _, _, _, _, e) = node-form (expr_of g decls a) (expr_of-node g decls a va) in
      rw (run, e, no_comma) refl
  parse_list-tokens (suc n) (more_items a bs) rest room some_item h v stop no_comma =
      let (va, ra) =
        at_most-parts 12 a _ (and-left (at_most 12 a (is_tree_of g decls true a)) _ v) in
      let more = and-right (at_most 12 a (is_tree_of g decls true a)) _ v in
      let run = reads a (sign b',' ∷ tokens_of_tree bs rest) (omega (arith, h)) va ra refl in
      let vs = and-left (is_tree_of g decls false bs) _ more in
      let behind =
        parse_list-tokens n bs rest (omega (arith, room))
          (and-right (is_tree_of g decls false bs) _ more) (omega (arith, h)) vs stop no_comma in
      let (_, _, _, _, _, e) = node-form (expr_of g decls a) (expr_of-node g decls a va) in
      let (_, _, _, _, _, f) = node-form (expr_of g decls bs) (items-node g decls bs vs) in
      rw (run, e, behind, f) refl
  parse_list-tokens zero (one_item a) rest room some_item h v stop no_comma =
      absurd (omega (arith, room))
  parse_list-tokens zero (more_items a bs) rest room some_item h v stop no_comma =
      absurd (omega (arith, room))
  parse_list-tokens m (identifier n) rest room some_item h v stop no_comma =
      absurd (ground (arith, some_item))
  parse_list-tokens m (number cs) rest room some_item h v stop no_comma =
      absurd (ground (arith, some_item))
  parse_list-tokens n (character c) rest room some_item h v stop no_comma =
      absurd (ground (arith, some_item))
  parse_list-tokens n (strings s ss) rest room some_item h v stop no_comma =
      absurd (ground (arith, some_item))
  parse_list-tokens n (grouped a) rest room some_item h v stop no_comma =
      absurd (ground (arith, some_item))
  parse_list-tokens n (index a i) rest room some_item h v stop no_comma =
      absurd (ground (arith, some_item))
  parse_list-tokens n (call a args) rest room some_item h v stop no_comma =
      absurd (ground (arith, some_item))
  parse_list-tokens m (dot a n) rest room some_item h v stop no_comma =
      absurd (ground (arith, some_item))
  parse_list-tokens m (arrow a n) rest room some_item h v stop no_comma =
      absurd (ground (arith, some_item))
  parse_list-tokens n (increment a) rest room some_item h v stop no_comma =
      absurd (ground (arith, some_item))
  parse_list-tokens n (decrement a) rest room some_item h v stop no_comma =
      absurd (ground (arith, some_item))
  parse_list-tokens n (prefix o a) rest room some_item h v stop no_comma =
      absurd (ground (arith, some_item))
  parse_list-tokens n (binary k a b) rest room some_item h v stop no_comma =
      absurd (ground (arith, some_item))
  parse_list-tokens n (choice c a b) rest room some_item h v stop no_comma =
      absurd (ground (arith, some_item))
  parse_list-tokens n (assign k a b) rest room some_item h v stop no_comma =
      absurd (ground (arith, some_item))
  parse_list-tokens n (comma a bs) rest room some_item h v stop no_comma =
      absurd (ground (arith, some_item))
  parse_list-tokens n no_items rest room some_item h v stop no_comma =
      absurd (ground (arith, some_item))
