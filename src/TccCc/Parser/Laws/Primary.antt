-- ===== src/TccCc/Parser/Laws/Primary.antt =====
-- Primary expressions.
use mes_replacement.Prelude.{
  ℕ, ◌-◌, ◌≤◌, ◌<◌, ◌≡◌, refl, ◌∙◌, List, [], ◌∷◌, ◌++◌, none, some, true, false, ◌==◌, leb, inl,
  inr, Option-cases, arith, length, Bytes,
}
use mes_replacement.TccCc.Environment.{Token}
use mes_replacement.TccCc.Conditions.Trees.{mark}
use mes_replacement.TccCc.Types.{Target, Decl, find_decl}
use mes_replacement.TccCc.Parser.{
  cur_kind, cur_text, Parsers, expect, strings_from, parse_string, max_const_strlen,
}
use mes_replacement.TccCc.Parser.Specifiers.{Specified}
use mes_replacement.TccCc.Parser.Grammar.{variable, parenthesis, parse_constant, parse_primary_expr}
use mes_replacement.TccCc.Parser.Trees.{
  Tree, identifier, number, character, strings, grouped, string_tokens, joined_text, tokens_of_tree,
  sign, is_variable, is_tree_of, nesting_of, expr_of, rank, identifier_node,
}
use mes_replacement.TccCc.Parser.Laws.Nodes.{bind-node, expr_of-node}
use mes_replacement.TccCc.Parser.Laws.Basics.{is_quiet, ends_expr, Reads}
use mes_replacement.TccCc.Parser.Laws.Starts.{variable-identifier, parse_type_specifier-tree}

strings_from-tokens :
    (ss : List Bytes) (rest : List Token)
    → (cur_kind rest == b'"') ≡ false
    → strings_from (string_tokens ss rest) ≡ (joined_text ss, rest)
unfolding strings_from
strings_from-tokens [] [] h = refl
strings_from-tokens [] (t ∷ ts) h = rw h refl
strings_from-tokens (s ∷ ss) rest h = let k = strings_from-tokens ss rest h in rw k refl

module _ (g : Target) (decls : List Decl) (tagged : ℕ → List Token → Specified)
    (struct_of : List Token → Specified) where
  variable-other :
      (ts : List Token)
      → (cur_kind ts == b'i') ≡ false
      → variable g decls tagged struct_of ts ≡ none
  unfolding variable
  variable-other ts k = elim (Option-cases (find_decl decls (cur_text ts))) [
    | inl h ↦ rw (variable, h) refl
    | inr (d, h) ↦ rw (variable, h, k) refl
  ]

  module _ (p : Parsers) where
    parse_primary_expr-constant :
        (ts : List Token)
        → (cur_kind ts == b'i') ≡ false
        → parse_primary_expr g decls tagged struct_of p ts
          ≡ parse_constant g decls tagged struct_of p ts
    unfolding parse_primary_expr
    parse_primary_expr-constant ts k =
        let h = variable-other ts k in rw (parse_primary_expr, h) refl

    pub parse_primary_expr-identifier :
        (n : Bytes) (rest : List Token)
        → is_variable g decls n ≡ true
        → parse_primary_expr g decls tagged struct_of p (mark b'i' n ∷ rest)
          ≡ some (expr_of g decls (identifier n), rest)
    unfolding parse_primary_expr variable
    parse_primary_expr-identifier n rest v =
        let (d, h, e) = variable-identifier g decls n rest v in
        let found : variable g decls tagged struct_of (mark b'i' n ∷ rest) ≡ some d =
          rw (variable, h, e) refl in
        rw (parse_primary_expr, found, identifier_node, h) refl

    pub parse_primary_expr-number :
        (cs : Bytes) (rest : List Token)
        → parse_primary_expr g decls tagged struct_of p (mark b'0' cs ∷ rest)
          ≡ some (expr_of g decls (number cs), rest)
    unfolding parse_constant
    parse_primary_expr-number cs rest = parse_primary_expr-constant (mark b'0' cs ∷ rest) refl

    pub parse_primary_expr-character :
        (c : ℕ) (rest : List Token)
        → parse_primary_expr g decls tagged struct_of p (mark b'\'' (c ∷ []) ∷ rest)
          ≡ some (expr_of g decls (character c), rest)
    unfolding parse_constant
    parse_primary_expr-character c rest =
        parse_primary_expr-constant (mark b'\'' (c ∷ []) ∷ rest) refl

    parse_string-tokens :
        (s : Bytes) (ss : List Bytes) (rest : List Token)
        → is_tree_of g decls true (strings s ss) ≡ true
        → (cur_kind rest == b'"') ≡ false
        → parse_string (mark b'"' s ∷ string_tokens ss rest)
          ≡ some (expr_of g decls (strings s ss), rest)
    unfolding parse_string strings_from
    parse_string-tokens s ss rest v k =
        let h = strings_from-tokens ss rest k in
        let fits : leb (max_const_strlen - 1) (length (s ++ joined_text ss)) ≡ false =
          ground (arith, v) in
        rw (h, fits) refl

    pub parse_primary_expr-strings :
        (s : Bytes) (ss : List Bytes) (rest : List Token)
        → is_tree_of g decls true (strings s ss) ≡ true
        → (cur_kind rest == b'"') ≡ false
        → parse_primary_expr g decls tagged struct_of p (tokens_of_tree (strings s ss) rest)
          ≡ some (expr_of g decls (strings s ss), rest)
    unfolding parse_constant
    parse_primary_expr-strings s ss rest v k =
        let h = parse_string-tokens s ss rest v k in
        let e = parse_primary_expr-constant (mark b'"' s ∷ string_tokens ss rest) refl in e ∙ h

    parenthesis-tokens :
        (depth : ℕ) (a : Tree) (rest : List Token)
        → Reads g decls depth 13 ends_expr (p.expr)
        → nesting_of a < depth
        → is_tree_of g decls true a ≡ true
        → rank a ≤ 13
        → parenthesis g decls tagged struct_of p (tokens_of_tree a (sign b')' ∷ rest))
          ≡ some (expr_of g decls a, rest)
    unfolding is_quiet parenthesis
    parenthesis-tokens depth a rest reads h v r =
        let no_type = parse_type_specifier-tree g decls tagged a (sign b')' ∷ rest) v in
        let run = reads a (sign b')' ∷ rest) h v r refl in
        rw (parenthesis, no_type, no_type, run)
          (bind-node (expr_of g decls a) (sign b')' ∷ rest)
            (λ (x, vs). expect b')' vs (λ ws. some (x, ws))) (expr_of-node g decls a v))

    pub parse_primary_expr-grouped :
        (depth : ℕ) (a : Tree) (rest : List Token)
        → Reads g decls depth 13 ends_expr (p.expr)
        → nesting_of a < depth
        → is_tree_of g decls true a ≡ true
        → rank a ≤ 13
        → parse_primary_expr g decls tagged struct_of p (tokens_of_tree (grouped a) rest)
          ≡ some (expr_of g decls (grouped a), rest)
    unfolding parse_constant
    parse_primary_expr-grouped depth a rest reads h v r =
        parse_primary_expr-constant (sign b'(' ∷ tokens_of_tree a (sign b')' ∷ rest)) refl
        ∙ parenthesis-tokens depth a rest reads h v r
