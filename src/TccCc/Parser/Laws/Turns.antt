-- ===== src/TccCc/Parser/Laws/Turns.antt =====
-- The turns of the loop over postfix operators.
use mes_replacement.Prelude.{
  ℕ, suc, ◌≡◌, refl, List, ◌∷◌, some, true, false, not, ltb, arith, Bytes,
}
use mes_replacement.TccCc.Environment.{Token}
use mes_replacement.TccCc.Tokens.Kinds.{tk_inc, tk_dec, tk_arrow}
use mes_replacement.TccCc.Conditions.Trees.{mark}
use mes_replacement.TccCc.Types.{Target, Decl}
use mes_replacement.TccCc.Exprs.{
  Expr, children, two_children, one_child, type_of, oper_post_inc, oper_post_dec,
}
use mes_replacement.TccCc.Parser.{Parsers}
use mes_replacement.TccCc.Parser.Specifiers.{Specified}
use mes_replacement.TccCc.Parser.Grammar.{parse_arguments, postfix_loop}
use mes_replacement.TccCc.Parser.Nodes.{
  expr_type_member, call_node, member_node, points_to_null, pointee,
}
use mes_replacement.TccCc.Parser.Trees.{sign}
use mes_replacement.TccCc.Parser.Laws.Nodes.{is_node, node-form}

pub ltb-suc : (n : ℕ) → ltb 0 (suc n) ≡ true
ltb-suc n = ground arith

module _ (g : Target) (decls : List Decl) (tagged : ℕ → List Token → Specified)
    (struct_of : List Token → Specified) (p : Parsers) where
  pub index-loop :
      (n : ℕ) (e i : Expr) (ts rest : List Token)
      → p.expr ts ≡ some (i, sign b']' ∷ rest)
      → is_node i ≡ true
      → postfix_loop g decls tagged struct_of p (suc n) e (sign b'[' ∷ ts)
        ≡ postfix_loop g decls tagged struct_of p n
            (two_children b'[' (expr_type_member e) e i)
            rest
  unfolding postfix_loop
  index-loop n e i ts rest run h = let (_, _, _, _, _, f) = node-form i h in rw (run, f) refl

  pub call-loop :
      (n : ℕ) (e l : Expr) (ts rest : List Token)
      → parse_arguments g decls tagged struct_of p ts ≡ some (l, sign b')' ∷ rest)
      → is_node l ≡ true
      → postfix_loop g decls tagged struct_of p (suc n) e (sign b'(' ∷ ts)
        ≡ postfix_loop g decls tagged struct_of p n (call_node e (children l)) rest
  unfolding postfix_loop
  call-loop n e l ts rest run h = let (_, _, _, _, _, f) = node-form l h in rw (run, f) refl

  pub dot-loop :
      (n : ℕ) (e : Expr) (s : Bytes) (rest : List Token)
      → postfix_loop g decls tagged struct_of p (suc n) e (sign b'.' ∷ mark b'i' s ∷ rest)
        ≡ postfix_loop g decls tagged struct_of p n (member_node g b'.' e (type_of e) s) rest
  unfolding postfix_loop
  dot-loop n e s rest = refl

  pub arrow-loop :
      (n : ℕ) (e : Expr) (s : Bytes) (rest : List Token)
      → not (points_to_null e) ≡ true
      → postfix_loop g decls tagged struct_of p (suc n) e (sign tk_arrow ∷ mark b'i' s ∷ rest)
        ≡ postfix_loop g decls tagged struct_of p n (member_node g tk_arrow e (pointee e) s) rest
  unfolding postfix_loop
  arrow-loop n e s rest h =
      let pointed : points_to_null e ≡ false = ground (arith, h) in
      rw (points_to_null, pointed) refl

  pub increment-loop :
      (n : ℕ) (e : Expr) (rest : List Token)
      → postfix_loop g decls tagged struct_of p (suc n) e (sign tk_inc ∷ rest)
        ≡ postfix_loop g decls tagged struct_of p n (one_child oper_post_inc (type_of e) e) rest
  unfolding postfix_loop
  increment-loop n e rest = refl

  pub decrement-loop :
      (n : ℕ) (e : Expr) (rest : List Token)
      → postfix_loop g decls tagged struct_of p (suc n) e (sign tk_dec ∷ rest)
        ≡ postfix_loop g decls tagged struct_of p n (one_child oper_post_dec (type_of e) e) rest
  unfolding postfix_loop
  decrement-loop n e rest = refl
