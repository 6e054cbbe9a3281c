-- ===== src/TccCc/Parser/Laws/Steps.antt =====
-- The last steps of the productions above the operators.
use mes_replacement.Prelude.{ℕ, suc, ◌≤◌, ◌≡◌, refl, List, ◌∷◌, some, true, false, ◌==◌, arith}
use mes_replacement.TccCc.Environment.{Token}
use mes_replacement.TccCc.Types.{Target, Decl}
use mes_replacement.TccCc.Exprs.{Expr, null, node, children, two_children, type_of}
use mes_replacement.TccCc.Parser.Specifiers.{Specified}
use mes_replacement.TccCc.Parser.Trees.{sign}
use mes_replacement.TccCc.Parser.{cur_kind, Parsers, operator_level, assigns}
use mes_replacement.TccCc.Parser.Grammar.{
  parse_level, parse_conditional_expr, assignment_loop, parse_assignment_expr, parse_expr,
}
use mes_replacement.TccCc.Parser.Nodes.{max_items, parse_list, comma_node}
use mes_replacement.TccCc.Parser.Laws.Nodes.{is_node, operator_level-bound}

pub operator_rank : (k : ℕ) → suc (operator_level k) ≤ 10
operator_rank k = let h = operator_level-bound k in omega (arith, h)

module _ (g : Target) (decls : List Decl) (tagged : ℕ → List Token → Specified)
    (struct_of : List Token → Specified) (p : Parsers) where
  pub conditional_end :
      (ts rest : List Token) (c : Expr)
      → parse_level g decls tagged struct_of p 9 ts ≡ some (c, rest)
      → (cur_kind rest == b'?') ≡ false
      → parse_conditional_expr g decls tagged struct_of p ts ≡ some (c, rest)
  unfolding parse_conditional_expr
  conditional_end ts rest c run other = rw (run, other) refl

  pub assignment_end :
      (ts rest : List Token) (e : Expr)
      → parse_conditional_expr g decls tagged struct_of p ts ≡ some (e, rest)
      → is_node e ≡ true
      → assigns (cur_kind rest) ≡ false
      → parse_assignment_expr g decls tagged struct_of p ts ≡ some (e, rest)
  unfolding parse_assignment_expr assignment_loop
  assignment_end ts rest null run h other = absurd (ground (arith, h))
  assignment_end ts rest (node kind v s type es) run h other = rw (run, other) refl

  pub assign_end :
      (ts us rest : List Token) (k : ℕ) (e f : Expr)
      → parse_conditional_expr g decls tagged struct_of p ts ≡ some (e, sign k ∷ us)
      → is_node e ≡ true
      → assigns k ≡ true
      → p.assignment us ≡ some (f, rest)
      → is_node f ≡ true
      → assigns (cur_kind rest) ≡ false
      → parse_assignment_expr g decls tagged struct_of p ts
        ≡ some (two_children k (type_of e) e f, rest)
  unfolding parse_assignment_expr assignment_loop
  assign_end ts us rest k null f run h go next_run i other = absurd (ground (arith, h))
  assign_end ts us rest k (node kind v s type es) null run h go next_run i other =
      absurd (ground (arith, i))
  assign_end ts us rest k (node kind v s type es) (node m w r t ds) run h go next_run i other =
      rw (run, go, next_run, other) refl

  pub expr_end :
      (ts rest : List Token) (e : Expr)
      → parse_assignment_expr g decls tagged struct_of p ts ≡ some (e, rest)
      → is_node e ≡ true
      → (cur_kind rest == b',') ≡ false
      → parse_expr g decls tagged struct_of p ts ≡ some (e, rest)
  unfolding parse_expr
  expr_end ts rest null run h other = absurd (ground (arith, h))
  expr_end ts rest (node kind v s type es) run h other = rw (run, other) refl

  pub comma_end :
      (ts us rest : List Token) (e l : Expr)
      → parse_assignment_expr g decls tagged struct_of p ts ≡ some (e, sign b',' ∷ us)
      → is_node e ≡ true
      → parse_list max_items (parse_assignment_expr g decls tagged struct_of p) us ≡ some (l, rest)
      → is_node l ≡ true
      → parse_expr g decls tagged struct_of p ts ≡ some (comma_node e (children l), rest)
  unfolding parse_expr
  comma_end ts us rest null l run h behind i = absurd (ground (arith, h))
  comma_end ts us rest (node kind v s type es) null run h behind i = absurd (ground (arith, i))
  comma_end ts us rest (node kind v s type es) (node m w r t ds) run h behind i =
      rw (run, behind) refl
