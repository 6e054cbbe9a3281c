-- ===== src/TccCc/Parser/Laws/Nodes.antt =====
-- The expressions of trees are nodes, and the ranks of trees.
use mes_replacement.Prelude.{
  ℕ, ◌≤◌, ◌≡◌, refl, List, Option, some, Bool, true, false, ◌||◌, ◌==◌, leb, inl, inr, Bool-cases,
  Option-cases, arith, Bytes, and-left, and-right,
}
use mes_replacement.TccCc.Environment.{Token}
use mes_replacement.TccCc.Tokens.Kinds.{tk_arrow}
use mes_replacement.TccCc.Types.{CType, Target, Decl, find_decl, find_member}
use mes_replacement.TccCc.Exprs.{Expr, null, node, Exprs, type_of}
use mes_replacement.TccCc.Parser.{Parsed, ◌>>=◌, operator_level}
use mes_replacement.TccCc.Parser.Nodes.{negation, operation_type, member_node, pointee}
use mes_replacement.TccCc.Parser.Trees.{
  pre_inc, pre_dec, address, star, plus, minus, tilde, bang, Tree, identifier, number, character,
  strings, grouped, index, call, dot, arrow, increment, decrement, prefix, binary, choice, assign,
  comma, no_items, one_item, more_items, rank, is_tree_of, at_most, expr_of, operation_result,
}

abbrev pub is_node : Expr → Bool
is_node null = false
is_node (node kind v s type es) = true

pub bind-node :
    (e : Expr) (ts : List Token) (f : Expr × List Token → Parsed)
    → is_node e ≡ true
    → (some (e, ts) >>= f) ≡ f (e, ts)
bind-node null ts f h = absurd (ground (arith, h))
bind-node (node kind v s type es) ts f h = refl

pub node-form :
    (e : Expr)
    → is_node e ≡ true
    → (kind : ℕ) × (v : ℕ) × (s : Bytes) × (type : Option CType) × (es : Exprs) × (e
        ≡ node kind v s type es)
node-form null h = absurd (ground (arith, h))
node-form (node kind v s type es) h = (kind, v, s, type, es, refl)

pub negation-node : (e : Expr) → is_node e ≡ true → is_node (negation e) ≡ true
unfolding negation
negation-node null h = h
negation-node (node kind v s type es) h = elim (Bool-cases (kind == b'0')) [
  | inl e ↦ rw e refl
  | inr e ↦ rw e refl
]

pub operator_level-bound : (k : ℕ) → operator_level k ≤ 9
operator_level-bound k = ground arith

pub rank-bound : (a : Tree) → rank a ≤ 13
rank-bound (binary k a b) = let h = operator_level-bound k in omega (arith, h)
rank-bound no_items = omega arith
rank-bound (identifier n) = omega arith
rank-bound (number cs) = omega arith
rank-bound (character c) = omega arith
rank-bound (strings s ss) = omega arith
rank-bound (grouped a) = omega arith
rank-bound (index a i) = omega arith
rank-bound (call a args) = omega arith
rank-bound (dot a n) = omega arith
rank-bound (arrow a n) = omega arith
rank-bound (increment a) = omega arith
rank-bound (decrement a) = omega arith
rank-bound (prefix o a) = omega arith
rank-bound (choice c a b) = omega arith
rank-bound (assign k a b) = omega arith
rank-bound (comma a bs) = omega arith
rank-bound (one_item a) = omega arith
rank-bound (more_items a bs) = omega arith

pub at_most-parts :
    (n : ℕ) (a : Tree) (valid : Bool) → at_most n a valid ≡ true → (valid ≡ true) × (rank a ≤ n)
at_most-parts n a valid h = (and-left valid _ h, ground (arith, and-right valid (leb (rank a) n) h))

module _ (g : Target) (decls : List Decl) where
  pub member_node-node :
      (kind : ℕ) (e : Expr) (type : Option CType) (n : Bytes)
      → is_node (member_node g kind e type n) ≡ true
  member_node-node kind e type n = elim (Option-cases (find_member g type n)) [
    | inl h ↦ rw (is_node, h) refl
    | inr (m, h) ↦ rw (is_node, h) refl
  ]

  pub expr_of-node :
      (a : Tree) → is_tree_of g decls true a ≡ true → is_node (expr_of g decls a) ≡ true
  expr_of-node (identifier n) v = elim (Option-cases (find_decl decls n)) [
    | inl h ↦ absurd (ground (arith, h, v))
    | inr (d, h) ↦ rw (is_node, h) refl
  ]
  expr_of-node (number cs) v = refl
  expr_of-node (character c) v = refl
  expr_of-node (strings s ss) v = refl
  expr_of-node (grouped a) v = expr_of-node a v
  expr_of-node (index a i) v = refl
  expr_of-node (call a args) v = refl
  expr_of-node (dot a n) v =
      member_node-node b'.' (expr_of g decls a) (type_of (expr_of g decls a)) n
  expr_of-node (arrow a n) v =
      member_node-node tk_arrow (expr_of g decls a) (pointee (expr_of g decls a)) n
  expr_of-node (increment a) v = refl
  expr_of-node (decrement a) v = refl
  expr_of-node (prefix minus a) v =
      negation-node (expr_of g decls a) (expr_of-node a (at_most-parts 1 a _ v).0)
  expr_of-node (prefix pre_inc a) v = refl
  expr_of-node (prefix pre_dec a) v = refl
  expr_of-node (prefix address a) v = refl
  expr_of-node (prefix star a) v = refl
  expr_of-node (prefix plus a) v = refl
  expr_of-node (prefix tilde a) v = refl
  expr_of-node (prefix bang a) v = refl
  expr_of-node (binary k a b) v = refl
  expr_of-node (choice c a b) v = refl
  expr_of-node (assign k a b) v = refl
  expr_of-node (comma a bs) v = refl
  expr_of-node no_items v = absurd (ground (arith, v))
  expr_of-node (one_item a) v = absurd (ground (arith, v))
  expr_of-node (more_items a bs) v = absurd (ground (arith, v))

  pub items-node :
      (a : Tree) → is_tree_of g decls false a ≡ true → is_node (expr_of g decls a) ≡ true
  items-node no_items v = refl
  items-node (one_item a) v = refl
  items-node (more_items a bs) v = refl
  items-node (identifier n) v = absurd (ground (arith, v))
  items-node (number cs) v = absurd (ground (arith, v))
  items-node (character c) v = absurd (ground (arith, v))
  items-node (strings s ss) v = absurd (ground (arith, v))
  items-node (grouped a) v = absurd (ground (arith, v))
  items-node (index a i) v = absurd (ground (arith, v))
  items-node (call a args) v = absurd (ground (arith, v))
  items-node (dot a n) v = absurd (ground (arith, v))
  items-node (arrow a n) v = absurd (ground (arith, v))
  items-node (increment a) v = absurd (ground (arith, v))
  items-node (decrement a) v = absurd (ground (arith, v))
  items-node (prefix o a) v = absurd (ground (arith, v))
  items-node (binary k a b) v = absurd (ground (arith, v))
  items-node (choice c a b) v = absurd (ground (arith, v))
  items-node (assign k a b) v = absurd (ground (arith, v))
  items-node (comma a bs) v = absurd (ground (arith, v))

  -- The code types the operation args the tree does.
  pub operation_type-result :
      (kind : ℕ) (l r : Expr)
      → is_node l ≡ true
      → operation_type g (operator_level kind) kind l r ≡ some (operation_result g kind l r)
  unfolding operation_type
  operation_type-result kind null r h = absurd (ground (arith, h))
  operation_type-result kind (node k v s type es) r h =
      let level = operator_level kind in
      elim (Bool-cases (level == 4 || (level == 8 || level == 9))) [
        | inl e ↦ rw e refl
        | inr e ↦ rw e refl
      ]
