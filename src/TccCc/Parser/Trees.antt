-- ===== src/TccCc/Parser/Trees.antt =====
-- Expressions as they are written: the tokens of a tree, and the expression that it stands for.
use mes_replacement.Prelude.{
  ℕ, suc, ◌+◌, List, [], ◌∷◌, ◌++◌, Option, none, some, Bool, true, false, not, ◌&&◌, ◌||◌, ◌==◌,
  leb, ltb, if◌then◌else◌, Bytes, length,
}
use mes_replacement.TccCc.Environment.{Token}
use mes_replacement.TccCc.Tokens.Kinds.{tk_inc, tk_dec, tk_arrow}
use mes_replacement.TccCc.Tokens.Values.{string_int_value}
use mes_replacement.TccCc.Conditions.Trees.{mark}
use mes_replacement.TccCc.Types.{
  CType, BaseType, base, bool_type, pointer, Target, Decl, new_ptr_type, expr_dioper_type,
  is_typedef, find_decl,
}
use mes_replacement.TccCc.Exprs.{
  Expr, null, node, Exprs, nil, cons, oper_post_inc, oper_post_dec, oper_pre_inc, oper_pre_dec,
  oper_plus, oper_star, oper_addr, one_child, two_children, three_children, char_value,
  new_expr_int_value, type_of, children,
}
use mes_replacement.TccCc.Parser.{max_const_strlen, assigns, operator_level}
use mes_replacement.TccCc.Parser.Nodes.{
  expr_type_member, call_node, comma_node, member_node, points_to_null, pointee, max_items,
  negation,
}

pub data Prefix : Type 0 where
  pre_inc pre_dec address star plus minus tilde bang : Prefix

abbrev pub prefix_kind : Prefix → ℕ
prefix_kind pre_inc = tk_inc
prefix_kind pre_dec = tk_dec
prefix_kind address = b'&'
prefix_kind star = b'*'
prefix_kind plus = b'+'
prefix_kind minus = b'-'
prefix_kind tilde = b'~'
prefix_kind bang = b'!'

-- The last three are lists of expressions: the arguments of a call, and what follows a comma.
pub data Tree : Type 0 where
  identifier : Bytes → Tree
  number : Bytes → Tree
  character : ℕ → Tree
  strings : Bytes → List Bytes → Tree
  grouped : Tree → Tree
  index : Tree → Tree → Tree
  call : Tree → Tree → Tree
  dot : Tree → Bytes → Tree
  arrow : Tree → Bytes → Tree
  increment decrement : Tree → Tree
  prefix : Prefix → Tree → Tree
  binary : ℕ → Tree → Tree → Tree
  choice : Tree → Tree → Tree → Tree
  assign : ℕ → Tree → Tree → Tree
  comma : Tree → Tree → Tree
  no_items : Tree
  one_item : Tree → Tree
  more_items : Tree → Tree → Tree

abbrev pub string_tokens : List Bytes → List Token → List Token
string_tokens [] rest = rest
string_tokens (s ∷ ss) rest = mark b'"' s ∷ string_tokens ss rest

abbrev pub sign : ℕ → Token
sign kind = mark kind (kind ∷ [])

abbrev pub tokens_of_tree : Tree → List Token → List Token
tokens_of_tree (identifier n) rest = mark b'i' n ∷ rest
tokens_of_tree (number cs) rest = mark b'0' cs ∷ rest
tokens_of_tree (character c) rest = mark b'\'' (c ∷ []) ∷ rest
tokens_of_tree (strings s ss) rest = mark b'"' s ∷ string_tokens ss rest
tokens_of_tree (grouped a) rest = sign b'(' ∷ tokens_of_tree a (sign b')' ∷ rest)
tokens_of_tree (index a i) rest = tokens_of_tree a (sign b'[' ∷ tokens_of_tree i (sign b']' ∷ rest))
tokens_of_tree (call a args) rest =
    tokens_of_tree a (sign b'(' ∷ tokens_of_tree args (sign b')' ∷ rest))
tokens_of_tree (dot a n) rest = tokens_of_tree a (sign b'.' ∷ mark b'i' n ∷ rest)
tokens_of_tree (arrow a n) rest = tokens_of_tree a (sign tk_arrow ∷ mark b'i' n ∷ rest)
tokens_of_tree (increment a) rest = tokens_of_tree a (sign tk_inc ∷ rest)
tokens_of_tree (decrement a) rest = tokens_of_tree a (sign tk_dec ∷ rest)
tokens_of_tree (prefix o a) rest = sign (prefix_kind o) ∷ tokens_of_tree a rest
tokens_of_tree (binary k a b) rest = tokens_of_tree a (sign k ∷ tokens_of_tree b rest)
tokens_of_tree (choice c a b) rest =
    tokens_of_tree c (sign b'?' ∷ tokens_of_tree a (sign b':' ∷ tokens_of_tree b rest))
tokens_of_tree (assign k a b) rest = tokens_of_tree a (sign k ∷ tokens_of_tree b rest)
tokens_of_tree (comma a bs) rest = tokens_of_tree a (sign b',' ∷ tokens_of_tree bs rest)
tokens_of_tree no_items rest = rest
tokens_of_tree (one_item a) rest = tokens_of_tree a rest
tokens_of_tree (more_items a bs) rest = tokens_of_tree a (sign b',' ∷ tokens_of_tree bs rest)

abbrev pub joined_text : List Bytes → Bytes
joined_text [] = []
joined_text (s ∷ ss) = s ++ joined_text ss

-- 0 for postfix expressions, 1 for unary ones, 2 to 10 for the binary operators, and then the rest.
abbrev pub rank : Tree → ℕ
rank (prefix o a) = 1
rank (binary k a b) = suc (operator_level k)
rank (choice c a b) = 11
rank (assign k a b) = 12
rank (comma a bs) = 13
rank _ = 0

abbrev pub nesting_of : Tree → ℕ
nesting_of (grouped a) = suc (nesting_of a)
nesting_of (index a i) = nesting_of a + suc (nesting_of i)
nesting_of (call a args) = nesting_of a + suc (nesting_of args)
nesting_of (dot a n) = nesting_of a
nesting_of (arrow a n) = nesting_of a
nesting_of (increment a) = nesting_of a
nesting_of (decrement a) = nesting_of a
nesting_of (prefix o a) = suc (nesting_of a)
nesting_of (binary k a b) = nesting_of a + nesting_of b
nesting_of (choice c a b) = nesting_of c + (nesting_of a + suc (nesting_of b))
nesting_of (assign k a b) = nesting_of a + suc (nesting_of b)
nesting_of (comma a bs) = nesting_of a + nesting_of bs
nesting_of (one_item a) = nesting_of a
nesting_of (more_items a bs) = nesting_of a + nesting_of bs
nesting_of _ = 0

abbrev pub items_of : Tree → ℕ
items_of (one_item a) = 1
items_of (more_items a bs) = suc (items_of bs)
items_of _ = 0

abbrev pub operation_result : Target → ℕ → Expr → Expr → Option CType
operation_result g kind l r =
    let level = operator_level kind in
    if level == 4 || (level == 8 || level == 9)
    then some bool_type
    else if level == 3
    then type_of l
    else expr_dioper_type g kind (type_of l) (type_of r)

abbrev pub prefixed : Prefix → Expr → Expr
prefixed pre_inc e = one_child oper_pre_inc (type_of e) e
prefixed pre_dec e = one_child oper_pre_dec (type_of e) e
prefixed address e = one_child oper_addr (some (new_ptr_type (type_of e))) e
prefixed star e = one_child oper_star (expr_type_member e) e
prefixed plus e = one_child oper_plus (type_of e) e
prefixed minus e = negation e
prefixed tilde e = one_child b'~' (type_of e) e
prefixed bang e = one_child b'!' (some bool_type) e

abbrev pub list_node : Exprs → Expr
list_node es = node b',' 0 [] none es

-- The test of an operand that binds at least as tightly as the rank says.
abbrev pub at_most : ℕ → Tree → Bool → Bool
at_most n a valid = valid && leb (rank a) n

module _ (g : Target) (decls : List Decl) where
  abbrev pub is_variable : Bytes → Bool
  is_variable n = elim (find_decl decls n) [ none ↦ false | some d ↦ not (is_typedef d) ]

  abbrev pub identifier_node : Bytes → Expr
  identifier_node n = elim (find_decl decls n) [ none ↦ null | some d ↦ node b'i' 0 n d.type nil ]

  -- The expression of the tree: each operator over its operands, with the types that the code gives.
  abbrev pub expr_of : Tree → Expr
  expr_of (identifier n) = identifier_node n
  expr_of (number cs) = new_expr_int_value (string_int_value cs)
  expr_of (character c) = node b'0' (char_value c) [] (some (base BaseType.s8)) nil
  expr_of (strings s ss) =
      node b'"' (length (s ++ joined_text ss)) (s ++ joined_text ss)
        (some (pointer (base BaseType.s8))) nil
  expr_of (grouped a) = expr_of a
  expr_of (index a i) = two_children b'[' (expr_type_member (expr_of a)) (expr_of a) (expr_of i)
  expr_of (call a args) = call_node (expr_of a) (children (expr_of args))
  expr_of (dot a n) = member_node g b'.' (expr_of a) (type_of (expr_of a)) n
  expr_of (arrow a n) = member_node g tk_arrow (expr_of a) (pointee (expr_of a)) n
  expr_of (increment a) = one_child oper_post_inc (type_of (expr_of a)) (expr_of a)
  expr_of (decrement a) = one_child oper_post_dec (type_of (expr_of a)) (expr_of a)
  expr_of (prefix o a) = prefixed o (expr_of a)
  expr_of (binary k a b) =
      two_children k (operation_result g k (expr_of a) (expr_of b)) (expr_of a) (expr_of b)
  expr_of (choice c a b) =
      three_children b'?' (type_of (expr_of a)) (expr_of c) (expr_of a) (expr_of b)
  expr_of (assign k a b) = two_children k (type_of (expr_of a)) (expr_of a) (expr_of b)
  expr_of (comma a bs) = comma_node (expr_of a) (children (expr_of bs))
  expr_of no_items = list_node nil
  expr_of (one_item a) = list_node (cons (expr_of a) nil)
  expr_of (more_items a bs) = list_node (cons (expr_of a) (children (expr_of bs)))

  -- An expression, or (`false`) a list of them: the operands bind at least as tightly as the operator
  -- asks for, what is in front of a `->` is no pointer to NULL, and the lists fit.
  abbrev pub is_tree_of : Bool → Tree → Bool
  is_tree_of true (identifier n) = is_variable n
  is_tree_of true (number cs) = true
  is_tree_of true (character c) = true
  is_tree_of true (strings s ss) = ltb (length (s ++ joined_text ss) + 1) max_const_strlen
  is_tree_of true (grouped a) = is_tree_of true a
  is_tree_of true (index a i) = at_most 0 a (is_tree_of true a) && is_tree_of true i
  is_tree_of true (call a args) =
      at_most 0 a (is_tree_of true a) && (is_tree_of false args && leb (items_of args) max_items)
  is_tree_of true (dot a n) = at_most 0 a (is_tree_of true a)
  is_tree_of true (arrow a n) = at_most 0 a (is_tree_of true a) && not (points_to_null (expr_of a))
  is_tree_of true (increment a) = at_most 0 a (is_tree_of true a)
  is_tree_of true (decrement a) = at_most 0 a (is_tree_of true a)
  is_tree_of true (prefix o a) = at_most 1 a (is_tree_of true a)
  is_tree_of true (binary k a b) =
      at_most (suc (operator_level k)) a (is_tree_of true a)
      && (at_most (operator_level k) b (is_tree_of true b) && ltb 0 (operator_level k))
  is_tree_of true (choice c a b) =
      at_most 10 c (is_tree_of true c)
      && (at_most 10 a (is_tree_of true a) && at_most 11 b (is_tree_of true b))
  is_tree_of true (assign k a b) =
      at_most 11 a (is_tree_of true a) && (at_most 12 b (is_tree_of true b) && assigns k)
  is_tree_of true (comma a bs) =
      at_most 12 a (is_tree_of true a)
      && (is_tree_of false bs && (ltb 0 (items_of bs) && leb (items_of bs) max_items))
  is_tree_of false no_items = true
  is_tree_of false (one_item a) = at_most 12 a (is_tree_of true a)
  is_tree_of false (more_items a bs) =
      at_most 12 a (is_tree_of true a) && (is_tree_of false bs && ltb 0 (items_of bs))
  is_tree_of _ _ = false
