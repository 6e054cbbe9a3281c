-- ===== src/TccCc/Parser/Laws/Starts.antt =====
-- The tokens that trees begin with.
use mes_replacement.Prelude.{
  ℕ, suc, ◌≡◌, refl, List, ◌∷◌, none, some, true, false, ◌==◌, inl, inr, Bool-cases, Option-cases,
  arith, Bytes, and-left,
}
use mes_replacement.TccCc.Environment.{Token}
use mes_replacement.TccCc.Tokens.Kinds.{tk_inc, tk_dec, tk_arrow}
use mes_replacement.TccCc.Conditions.Trees.{mark}
use mes_replacement.TccCc.Types.{Target, Decl, is_typedef, find_decl}
use mes_replacement.TccCc.Parser.{tk_sizeof, cur_kind, operator_level}
use mes_replacement.TccCc.Parser.Specifiers.{
  Specified, parse_type_specifier, plain_specifier, named_specifier,
}
use mes_replacement.TccCc.Parser.Nodes.{prefix_node}
use mes_replacement.TccCc.Parser.Trees.{
  pre_inc, pre_dec, address, star, plus, minus, tilde, bang, Tree, identifier, number, character,
  strings, grouped, index, call, dot, arrow, increment, decrement, prefix, binary, choice, assign,
  comma, no_items, one_item, more_items, tokens_of_tree, sign, rank, is_variable, is_tree_of,
  at_most,
}
use mes_replacement.TccCc.Parser.Laws.Nodes.{at_most-parts}

module _ (g : Target) (decls : List Decl) where
  pub variable-identifier :
      (n : Bytes) (rest : List Token)
      → is_variable g decls n ≡ true
      → (d : Decl) × (find_decl decls n ≡ some d) × (is_typedef d ≡ false)
  variable-identifier n rest v = elim (Option-cases (find_decl decls n)) [
    | inl h ↦ absurd (ground (arith, h, v))
    | inr (d, h) ↦ elim (Bool-cases (is_typedef d)) [
      | inl e ↦ absurd (ground (arith, h, e, v))
      | inr e ↦ (d, h, e)
    ]
  ]

  named_specifier-variable :
      (n : Bytes) (rest : List Token)
      → is_variable g decls n ≡ true
      → named_specifier decls (mark b'i' n ∷ rest) ≡ (none, mark b'i' n ∷ rest)
  unfolding named_specifier
  named_specifier-variable n rest v =
      let (d, h, e) = variable-identifier n rest v in
      elim (Option-cases (d.type)) [
        | inl f ↦ rw (named_specifier, h, f) refl
        | inr (t, f) ↦ rw (named_specifier, h, f, e) refl
      ]

  -- No expression begins with a type.
  pub parse_type_specifier-tree :
      (tagged : ℕ → List Token → Specified) (a : Tree) (rest : List Token)
      → is_tree_of g decls true a ≡ true
      → parse_type_specifier tagged decls (tokens_of_tree a rest) ≡ (none, tokens_of_tree a rest)
  unfolding parse_type_specifier plain_specifier
  parse_type_specifier-tree tagged (identifier n) rest v = named_specifier-variable n rest v
  parse_type_specifier-tree tagged (number cs) rest v = refl
  parse_type_specifier-tree tagged (character c) rest v = refl
  parse_type_specifier-tree tagged (strings s ss) rest v = refl
  parse_type_specifier-tree tagged (grouped a) rest v = refl
  parse_type_specifier-tree tagged (index a i) rest v =
      parse_type_specifier-tree tagged a (sign b'[' ∷ tokens_of_tree i (sign b']' ∷ rest))
        ((at_most-parts 0 a _ (and-left (at_most 0 a (is_tree_of g decls true a)) _ v)).0)
  parse_type_specifier-tree tagged (call a args) rest v =
      parse_type_specifier-tree tagged a (sign b'(' ∷ tokens_of_tree args (sign b')' ∷ rest))
        ((at_most-parts 0 a _ (and-left (at_most 0 a (is_tree_of g decls true a)) _ v)).0)
  parse_type_specifier-tree tagged (dot a n) rest v =
      parse_type_specifier-tree tagged a (sign b'.' ∷ mark b'i' n ∷ rest)
        ((at_most-parts 0 a _ v).0)
  parse_type_specifier-tree tagged (arrow a n) rest v =
      parse_type_specifier-tree tagged a (sign tk_arrow ∷ mark b'i' n ∷ rest)
        ((at_most-parts 0 a _ (and-left (at_most 0 a (is_tree_of g decls true a)) _ v)).0)
  parse_type_specifier-tree tagged (increment a) rest v =
      parse_type_specifier-tree tagged a (sign tk_inc ∷ rest) ((at_most-parts 0 a _ v).0)
  parse_type_specifier-tree tagged (decrement a) rest v =
      parse_type_specifier-tree tagged a (sign tk_dec ∷ rest) ((at_most-parts 0 a _ v).0)
  parse_type_specifier-tree tagged (prefix pre_inc a) rest v = refl
  parse_type_specifier-tree tagged (prefix pre_dec a) rest v = refl
  parse_type_specifier-tree tagged (prefix address a) rest v = refl
  parse_type_specifier-tree tagged (prefix star a) rest v = refl
  parse_type_specifier-tree tagged (prefix plus a) rest v = refl
  parse_type_specifier-tree tagged (prefix minus a) rest v = refl
  parse_type_specifier-tree tagged (prefix tilde a) rest v = refl
  parse_type_specifier-tree tagged (prefix bang a) rest v = refl
  parse_type_specifier-tree tagged (binary k a b) rest v =
      parse_type_specifier-tree tagged a (sign k ∷ tokens_of_tree b rest) (
        (at_most-parts (suc (operator_level k)) a _
          (and-left (at_most (suc (operator_level k)) a (is_tree_of g decls true a)) _ v)).0)
  parse_type_specifier-tree tagged (choice c a b) rest v =
      parse_type_specifier-tree tagged c
        (sign b'?' ∷ tokens_of_tree a (sign b':' ∷ tokens_of_tree b rest))
        ((at_most-parts 10 c _ (and-left (at_most 10 c (is_tree_of g decls true c)) _ v)).0)
  parse_type_specifier-tree tagged (assign k a b) rest v =
      parse_type_specifier-tree tagged a (sign k ∷ tokens_of_tree b rest)
        ((at_most-parts 11 a _ (and-left (at_most 11 a (is_tree_of g decls true a)) _ v)).0)
  parse_type_specifier-tree tagged (comma a bs) rest v =
      parse_type_specifier-tree tagged a (sign b',' ∷ tokens_of_tree bs rest)
        ((at_most-parts 12 a _ (and-left (at_most 12 a (is_tree_of g decls true a)) _ v)).0)
  parse_type_specifier-tree tagged no_items rest v = absurd (ground (arith, v))
  parse_type_specifier-tree tagged (one_item a) rest v = absurd (ground (arith, v))
  parse_type_specifier-tree tagged (more_items a bs) rest v = absurd (ground (arith, v))

  pub starts_tree :
      (a : Tree) (rest : List Token)
      → is_tree_of g decls true a ≡ true
      → (cur_kind (tokens_of_tree a rest) == b')') ≡ false
  starts_tree (identifier n) rest v = refl
  starts_tree (number cs) rest v = refl
  starts_tree (character c) rest v = refl
  starts_tree (strings s ss) rest v = refl
  starts_tree (grouped a) rest v = refl
  starts_tree (index a i) rest v =
      starts_tree a (sign b'[' ∷ tokens_of_tree i (sign b']' ∷ rest))
        ((at_most-parts 0 a _ (and-left (at_most 0 a (is_tree_of g decls true a)) _ v)).0)
  starts_tree (call a args) rest v =
      starts_tree a (sign b'(' ∷ tokens_of_tree args (sign b')' ∷ rest))
        ((at_most-parts 0 a _ (and-left (at_most 0 a (is_tree_of g decls true a)) _ v)).0)
  starts_tree (dot a n) rest v =
      starts_tree a (sign b'.' ∷ mark b'i' n ∷ rest) ((at_most-parts 0 a _ v).0)
  starts_tree (arrow a n) rest v =
      starts_tree a (sign tk_arrow ∷ mark b'i' n ∷ rest)
        ((at_most-parts 0 a _ (and-left (at_most 0 a (is_tree_of g decls true a)) _ v)).0)
  starts_tree (increment a) rest v = starts_tree a (sign tk_inc ∷ rest) ((at_most-parts 0 a _ v).0)
  starts_tree (decrement a) rest v = starts_tree a (sign tk_dec ∷ rest) ((at_most-parts 0 a _ v).0)
  starts_tree (prefix pre_inc a) rest v = refl
  starts_tree (prefix pre_dec a) rest v = refl
  starts_tree (prefix address a) rest v = refl
  starts_tree (prefix star a) rest v = refl
  starts_tree (prefix plus a) rest v = refl
  starts_tree (prefix minus a) rest v = refl
  starts_tree (prefix tilde a) rest v = refl
  starts_tree (prefix bang a) rest v = refl
  starts_tree (binary k a b) rest v = starts_tree a (sign k ∷ tokens_of_tree b rest) (
      (at_most-parts (suc (operator_level k)) a _
        (and-left (at_most (suc (operator_level k)) a (is_tree_of g decls true a)) _ v)).0)
  starts_tree (choice c a b) rest v =
      starts_tree c (sign b'?' ∷ tokens_of_tree a (sign b':' ∷ tokens_of_tree b rest))
        ((at_most-parts 10 c _ (and-left (at_most 10 c (is_tree_of g decls true c)) _ v)).0)
  starts_tree (assign k a b) rest v =
      starts_tree a (sign k ∷ tokens_of_tree b rest)
        ((at_most-parts 11 a _ (and-left (at_most 11 a (is_tree_of g decls true a)) _ v)).0)
  starts_tree (comma a bs) rest v =
      starts_tree a (sign b',' ∷ tokens_of_tree bs rest)
        ((at_most-parts 12 a _ (and-left (at_most 12 a (is_tree_of g decls true a)) _ v)).0)
  starts_tree no_items rest v = absurd (ground (arith, v))
  starts_tree (one_item a) rest v = absurd (ground (arith, v))
  starts_tree (more_items a bs) rest v = absurd (ground (arith, v))

  -- A postfix expression begins with no prefix operator.
  pub prefix_node-postfix :
      (a : Tree) (rest : List Token)
      → is_tree_of g decls true a ≡ true
      → rank a ≡ 0
      → (prefix_node (cur_kind (tokens_of_tree a rest)) ≡ none)
        × ((cur_kind (tokens_of_tree a rest) == tk_sizeof) ≡ false)
  unfolding prefix_node
  prefix_node-postfix (identifier n) rest v z = (refl, refl)
  prefix_node-postfix (number cs) rest v z = (refl, refl)
  prefix_node-postfix (character c) rest v z = (refl, refl)
  prefix_node-postfix (strings s ss) rest v z = (refl, refl)
  prefix_node-postfix (grouped a) rest v z = (refl, refl)
  prefix_node-postfix (index a i) rest v z =
      prefix_node-postfix a (sign b'[' ∷ tokens_of_tree i (sign b']' ∷ rest))
        ((at_most-parts 0 a _ (and-left (at_most 0 a (is_tree_of g decls true a)) _ v)).0)
        (omega
          (arith, (at_most-parts 0 a _ (and-left (at_most 0 a (is_tree_of g decls true a)) _ v)).1))
  prefix_node-postfix (call a args) rest v z =
      prefix_node-postfix a (sign b'(' ∷ tokens_of_tree args (sign b')' ∷ rest))
        ((at_most-parts 0 a _ (and-left (at_most 0 a (is_tree_of g decls true a)) _ v)).0)
        (omega
          (arith, (at_most-parts 0 a _ (and-left (at_most 0 a (is_tree_of g decls true a)) _ v)).1))
  prefix_node-postfix (dot a n) rest v z =
      prefix_node-postfix a (sign b'.' ∷ mark b'i' n ∷ rest) ((at_most-parts 0 a _ v).0)
        (omega (arith, (at_most-parts 0 a _ v).1))
  prefix_node-postfix (arrow a n) rest v z =
      prefix_node-postfix a (sign tk_arrow ∷ mark b'i' n ∷ rest)
        ((at_most-parts 0 a _ (and-left (at_most 0 a (is_tree_of g decls true a)) _ v)).0)
        (omega
          (arith, (at_most-parts 0 a _ (and-left (at_most 0 a (is_tree_of g decls true a)) _ v)).1))
  prefix_node-postfix (increment a) rest v z =
      prefix_node-postfix a (sign tk_inc ∷ rest) ((at_most-parts 0 a _ v).0)
        (omega (arith, (at_most-parts 0 a _ v).1))
  prefix_node-postfix (decrement a) rest v z =
      prefix_node-postfix a (sign tk_dec ∷ rest) ((at_most-parts 0 a _ v).0)
        (omega (arith, (at_most-parts 0 a _ v).1))
  prefix_node-postfix (prefix o a) rest v z = absurd (omega (arith, z))
  prefix_node-postfix (binary k a b) rest v z = absurd (omega (arith, z))
  prefix_node-postfix (choice c a b) rest v z = absurd (omega (arith, z))
  prefix_node-postfix (assign k a b) rest v z = absurd (omega (arith, z))
  prefix_node-postfix (comma a bs) rest v z = absurd (omega (arith, z))
  prefix_node-postfix no_items rest v z = absurd (ground (arith, v))
  prefix_node-postfix (one_item a) rest v z = absurd (ground (arith, v))
  prefix_node-postfix (more_items a bs) rest v z = absurd (ground (arith, v))
