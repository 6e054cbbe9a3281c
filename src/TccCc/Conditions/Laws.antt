-- ===== src/TccCc/Conditions/Laws.antt =====
-- Laws of the parser of conditions, on the tokens of a tree.
use mes_replacement.Prelude.{
  and-left, and-right, ℕ, zero, suc, ◌+◌, ◌≤◌, ◌<◌, ◌≡◌, refl, List, ◌∷◌, some, Bool, true, false,
  not, ◌&&◌, ◌==◌, leb, arith, length, Bytes, codes, Member, here, Member-append_left,
  Member-append_right,
}
use mes_replacement.TccCc.Environment.{Token, Macro}
use mes_replacement.TccCc.Tokens.Kinds.{tk_eq, tk_ne, tk_dd_oper}
use mes_replacement.TccCc.Conditions.{
  Parsed, kind_at, name_value, parse_primary, parse_unary_expr, parse_compare_expr,
}
use mes_replacement.TccCc.Conditions.Trees.{
  Condition, number, name, defined, defined_in, parenthesis, negation, equal, unequal, both, either,
  mark, tokens_of, level, is_tree, depth, value_of, names_of,
}

pub length-tokens_of :
    (c : Condition) (rest : List Token) → depth c + length rest < length (tokens_of c rest)
length-tokens_of (number cs) rest = omega arith
length-tokens_of (name n) rest = omega arith
length-tokens_of (defined n) rest = omega arith
length-tokens_of (defined_in n) rest = omega arith
length-tokens_of (parenthesis c) rest =
    let h = length-tokens_of c (mark b')' (codes ")") ∷ rest) in omega (arith, h)
length-tokens_of (negation c) rest = let h = length-tokens_of c rest in omega (arith, h)
length-tokens_of (equal a b) rest =
    let h = length-tokens_of b rest in
    let k = length-tokens_of a (mark tk_eq (codes "==") ∷ tokens_of b rest) in omega (arith, h, k)
length-tokens_of (unequal a b) rest =
    let h = length-tokens_of b rest in
    let k = length-tokens_of a (mark tk_ne (codes "!=") ∷ tokens_of b rest) in omega (arith, h, k)
length-tokens_of (both a b) rest =
    let h = length-tokens_of b rest in
    let k = length-tokens_of a (mark (tk_dd_oper + b'&') (codes "&&") ∷ tokens_of b rest) in
    omega (arith, h, k)
length-tokens_of (either a b) rest =
    let h = length-tokens_of b rest in
    let k = length-tokens_of a (mark (tk_dd_oper + b'|') (codes "||") ∷ tokens_of b rest) in
    omega (arith, h, k)

pub positive : (n k : ℕ) → k < n → (m : ℕ) × (n ≡ suc m)
positive zero k h = absurd (omega (arith, h))
positive (suc m) k h = (m, refl)

abbrev pub no_compare : List Token → Bool
no_compare ts = not (kind_at ts == tk_eq) && not (kind_at ts == tk_ne)

-- What is behind does not go on with the condition.
abbrev pub is_behind : List Token → Bool
is_behind ts =
    no_compare ts
    && (not (kind_at ts == tk_dd_oper + b'&') && not (kind_at ts == tk_dd_oper + b'|'))

module _ (environment : List Macro) (of_name : Bytes → ℕ) (fuel : ℕ) where
  -- The names of the condition expand to their numbers.
  abbrev pub Knows : Condition → Type 0
  Knows c = (n : Bytes) → Member n (names_of c) → name_value environment fuel n ≡ some (of_name n)

  -- What a parser for parentheses does on conditions of less than a depth.
  abbrev pub Parses : ℕ → (List Token → Parsed) → Type 0
  Parses d parser =
      (c : Condition) (rest : List Token)
      → depth c < d
      → is_tree c ≡ true
      → Knows c
      → is_behind rest ≡ true
      → parser (tokens_of c rest) ≡ some (value_of environment of_name c, rest)

  module _ (d : ℕ) (inner : List Token → Parsed) (parses : Parses d inner) where
    parse_primary-tokens :
        (c : Condition) (rest : List Token)
        → depth c ≤ d
        → is_tree c ≡ true
        → level c ≡ 0
        → Knows c
        → parse_primary environment fuel inner (tokens_of c rest)
          ≡ some (value_of environment of_name c, rest)
    unfolding parse_primary
    parse_primary-tokens (number cs) rest h v l k = refl
    parse_primary-tokens (name n) rest h v l k = let known = k n here in rw known refl
    parse_primary-tokens (defined n) rest h v l k = refl
    parse_primary-tokens (defined_in n) rest h v l k = refl
    parse_primary-tokens (parenthesis c) rest h v l k =
        let run = parses c (mark b')' (codes ")") ∷ rest) (omega (arith, h)) v k refl in rw run refl
    parse_primary-tokens (negation c) rest h v l k = absurd (omega (arith, l))
    parse_primary-tokens (equal a b) rest h v l k = absurd (omega (arith, l))
    parse_primary-tokens (unequal a b) rest h v l k = absurd (omega (arith, l))
    parse_primary-tokens (both a b) rest h v l k = absurd (omega (arith, l))
    parse_primary-tokens (either a b) rest h v l k = absurd (omega (arith, l))

    parse_unary_expr-tokens :
        (c : Condition) (rest : List Token)
        → depth c ≤ d
        → is_tree c ≡ true
        → level c ≤ 1
        → Knows c
        → parse_unary_expr environment fuel inner (tokens_of c rest)
          ≡ some (value_of environment of_name c, rest)
    unfolding parse_unary_expr
    parse_unary_expr-tokens (number cs) rest h v l k =
        parse_primary-tokens (number cs) rest h v refl k
    parse_unary_expr-tokens (name n) rest h v l k = parse_primary-tokens (name n) rest h v refl k
    parse_unary_expr-tokens (defined n) rest h v l k =
        parse_primary-tokens (defined n) rest h v refl k
    parse_unary_expr-tokens (defined_in n) rest h v l k =
        parse_primary-tokens (defined_in n) rest h v refl k
    parse_unary_expr-tokens (parenthesis c) rest h v l k =
        parse_primary-tokens (parenthesis c) rest h v refl k
    parse_unary_expr-tokens (negation c) rest h v l k =
        let low = and-right (is_tree c) (level c == 0) v in
        let run =
          parse_primary-tokens c rest h (and-left (is_tree c) _ v) (ground (arith, low)) k in
        rw run refl
    parse_unary_expr-tokens (equal a b) rest h v l k = absurd (omega (arith, l))
    parse_unary_expr-tokens (unequal a b) rest h v l k = absurd (omega (arith, l))
    parse_unary_expr-tokens (both a b) rest h v l k = absurd (omega (arith, l))
    parse_unary_expr-tokens (either a b) rest h v l k = absurd (omega (arith, l))

    -- A comparison of two unary expressions.
    compare-tokens :
        (a b : Condition) (rest : List Token) (kind : ℕ) (text : Bytes)
        → depth a + depth b ≤ d
        → ((is_tree a && leb (level a) 1) && (is_tree b && leb (level b) 1)) ≡ true
        → Knows a
        → Knows b
        → (parse_unary_expr environment fuel inner (tokens_of a (mark kind text ∷ tokens_of b rest))
            ≡ some (value_of environment of_name a, mark kind text ∷ tokens_of b rest))
          × (parse_unary_expr environment fuel inner (tokens_of b rest)
              ≡ some (value_of environment of_name b, rest))
    compare-tokens a b rest kind text h v k l =
        let va = and-left (is_tree a && leb (level a) 1) (is_tree b && leb (level b) 1) v in
        let vb = and-right (is_tree a && leb (level a) 1) (is_tree b && leb (level b) 1) v in
        let la = and-right (is_tree a) (leb (level a) 1) va in
        let lb = and-right (is_tree b) (leb (level b) 1) vb in
        (
          parse_unary_expr-tokens a (mark kind text ∷ tokens_of b rest) (omega (arith, h))
              (and-left (is_tree a) _ va) (ground (arith, la)) k,
          parse_unary_expr-tokens b rest (omega (arith, h)) (and-left (is_tree b) _ vb)
              (ground (arith, lb)) l,
        )

    parse_compare_expr-unary :
        (c : Condition) (rest : List Token)
        → depth c ≤ d
        → is_tree c ≡ true
        → level c ≤ 1
        → no_compare rest ≡ true
        → Knows c
        → parse_compare_expr environment fuel inner (tokens_of c rest)
          ≡ some (value_of environment of_name c, rest)
    unfolding parse_compare_expr
    parse_compare_expr-unary c rest h v l stop k =
        let no_eq : (kind_at rest == tk_eq) ≡ false = ground (arith, stop) in
        let no_ne : (kind_at rest == tk_ne) ≡ false = ground (arith, stop) in
        let run = parse_unary_expr-tokens c rest h v l k in rw (run, no_eq, no_ne) refl

    pub parse_compare_expr-tokens :
        (c : Condition) (rest : List Token)
        → depth c ≤ d
        → is_tree c ≡ true
        → level c ≤ 2
        → no_compare rest ≡ true
        → Knows c
        → parse_compare_expr environment fuel inner (tokens_of c rest)
          ≡ some (value_of environment of_name c, rest)
    unfolding parse_compare_expr
    parse_compare_expr-tokens (equal a b) rest h v l stop k =
        let (x, y) =
          compare-tokens a b rest tk_eq (codes "==") h v
            (λ n m. k n (Member-append_left (names_of b) m))
            (λ n m. k n (Member-append_right (names_of a) m)) in
        rw (x, y) refl
    parse_compare_expr-tokens (unequal a b) rest h v l stop k =
        let (x, y) =
          compare-tokens a b rest tk_ne (codes "!=") h v
            (λ n m. k n (Member-append_left (names_of b) m))
            (λ n m. k n (Member-append_right (names_of a) m)) in
        rw (x, y) refl
    parse_compare_expr-tokens (both a b) rest h v l stop k = absurd (omega (arith, l))
    parse_compare_expr-tokens (either a b) rest h v l stop k = absurd (omega (arith, l))
    parse_compare_expr-tokens (number cs) rest h v l stop k =
        parse_compare_expr-unary (number cs) rest h v (omega arith) stop k
    parse_compare_expr-tokens (name n) rest h v l stop k =
        parse_compare_expr-unary (name n) rest h v (omega arith) stop k
    parse_compare_expr-tokens (defined n) rest h v l stop k =
        parse_compare_expr-unary (defined n) rest h v (omega arith) stop k
    parse_compare_expr-tokens (defined_in n) rest h v l stop k =
        parse_compare_expr-unary (defined_in n) rest h v (omega arith) stop k
    parse_compare_expr-tokens (parenthesis c) rest h v l stop k =
        parse_compare_expr-unary (parenthesis c) rest h v (omega arith) stop k
    parse_compare_expr-tokens (negation c) rest h v l stop k =
        parse_compare_expr-unary (negation c) rest h v (omega arith) stop k
