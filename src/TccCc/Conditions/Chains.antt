-- ===== src/TccCc/Conditions/Chains.antt =====
-- The chains of `&&` and `||` in conditions, and whole conditions.
use mes_replacement.Prelude.{
  and-left, and-right, ℕ, zero, suc, ◌+◌, ◌≤◌, ◌<◌, ◌≡◌, refl, ◌∙◌, List, ◌∷◌, some, true, false,
  not, ◌&&◌, ◌||◌, ◌==◌, leb, arith, length, Bytes, codes, Member-append_left, Member-append_right,
}
use mes_replacement.TccCc.Environment.{Token, Macro}
use mes_replacement.TccCc.Tokens.Kinds.{tk_dd_oper}
use mes_replacement.TccCc.Conditions.{
  Parsed, kind_at, truth, parse_compare_expr, and_loop, parse_and_expr, or_loop, parse_or,
  parse_or_expr,
}
use mes_replacement.TccCc.Conditions.Trees.{
  Condition, number, name, defined, defined_in, parenthesis, negation, equal, unequal, both, either,
  mark, tokens_of, level, is_tree, depth, value_of, names_of,
}
use mes_replacement.TccCc.Conditions.Laws.{
  length-tokens_of, positive, no_compare, is_behind, Knows, Parses, parse_compare_expr-tokens,
}

module _ (environment : List Macro) (of_name : Bytes → ℕ) (fuel : ℕ) where
  module _ (d : ℕ) (inner : List Token → Parsed)
      (parses : Parses environment of_name fuel d inner) where
    and_loop-go :
        (n v w : ℕ) (text : Bytes) (ts rest : List Token)
        → parse_compare_expr environment fuel inner ts ≡ some (w, rest)
        → and_loop environment fuel inner (suc n) v (mark (tk_dd_oper + b'&') text ∷ ts)
          ≡ and_loop environment fuel inner n (truth (not (v == 0) && not (w == 0))) rest
    unfolding and_loop
    and_loop-go n v w text ts rest run = rw run refl

    -- Behind the tokens the loop goes on with the value, with fuel for what is left.
    abbrev ReachesAnd : Condition → List Token → Type 0
    ReachesAnd c rest =
        (n : ℕ) × (length rest < n)
        × (parse_and_expr environment fuel inner (tokens_of c rest)
            ≡ and_loop environment fuel inner n (value_of environment of_name c) rest)

    parse_and_expr-compare :
        (c : Condition) (rest : List Token)
        → depth c ≤ d
        → is_tree c ≡ true
        → level c ≤ 2
        → no_compare rest ≡ true
        → Knows environment of_name fuel c
        → ReachesAnd c rest
    unfolding parse_and_expr
    parse_and_expr-compare c rest h v l stop k =
        let run =
          parse_compare_expr-tokens environment of_name fuel d inner parses c rest h v l stop k in
        (suc (length rest), omega arith, rw run refl)

    parse_and_expr-tokens :
        (c : Condition) (rest : List Token)
        → depth c ≤ d
        → is_tree c ≡ true
        → level c ≤ 3
        → no_compare rest ≡ true
        → Knows environment of_name fuel c
        → ReachesAnd c rest
    parse_and_expr-tokens (both a b) rest h v l stop k =
        let va = and-left (is_tree a && leb (level a) 3) (is_tree b && leb (level b) 2) v in
        let vb = and-right (is_tree a && leb (level a) 3) (is_tree b && leb (level b) 2) v in
        let la = and-right (is_tree a) (leb (level a) 3) va in
        let lb = and-right (is_tree b) (leb (level b) 2) vb in
        let step =
          parse_compare_expr-tokens environment of_name fuel d inner parses b rest
            (omega (arith, h)) (and-left (is_tree b) _ vb) (ground (arith, lb)) stop
            (λ n m. k n (Member-append_right (names_of a) m)) in
        let behind =
          parse_and_expr-tokens a (mark (tk_dd_oper + b'&') (codes "&&") ∷ tokens_of b rest)
            (omega (arith, h)) (and-left (is_tree a) _ va) (ground (arith, la)) refl
            (λ n m. k n (Member-append_left (names_of b) m)) in
        let size = length-tokens_of b rest in
        let (n, room, run) = behind in
        let (m, e) = positive n _ room in
        (
          m,
          omega (arith, room, size, e),
          run ∙ rw e (and_loop-go m _ _ (codes "&&") (tokens_of b rest) rest step),
        )
    parse_and_expr-tokens (either a b) rest h v l stop k = absurd (omega (arith, l))
    parse_and_expr-tokens (number cs) rest h v l stop k =
        parse_and_expr-compare (number cs) rest h v (omega arith) stop k
    parse_and_expr-tokens (name n) rest h v l stop k =
        parse_and_expr-compare (name n) rest h v (omega arith) stop k
    parse_and_expr-tokens (defined n) rest h v l stop k =
        parse_and_expr-compare (defined n) rest h v (omega arith) stop k
    parse_and_expr-tokens (defined_in n) rest h v l stop k =
        parse_and_expr-compare (defined_in n) rest h v (omega arith) stop k
    parse_and_expr-tokens (parenthesis c) rest h v l stop k =
        parse_and_expr-compare (parenthesis c) rest h v (omega arith) stop k
    parse_and_expr-tokens (negation c) rest h v l stop k =
        parse_and_expr-compare (negation c) rest h v (omega arith) stop k
    parse_and_expr-tokens (equal a b) rest h v l stop k =
        parse_and_expr-compare (equal a b) rest h v (omega arith) stop k
    parse_and_expr-tokens (unequal a b) rest h v l stop k =
        parse_and_expr-compare (unequal a b) rest h v (omega arith) stop k

    parse_and_expr-ends :
        (c : Condition) (rest : List Token)
        → depth c ≤ d
        → is_tree c ≡ true
        → level c ≤ 3
        → no_compare rest ≡ true
        → (kind_at rest == tk_dd_oper + b'&') ≡ false
        → Knows environment of_name fuel c
        → parse_and_expr environment fuel inner (tokens_of c rest)
          ≡ some (value_of environment of_name c, rest)
    unfolding and_loop
    parse_and_expr-ends c rest h v l stop no_and k =
        let (n, room, run) = parse_and_expr-tokens c rest h v l stop k in
        let (m, e) = positive n _ room in run ∙ rw (e, no_and) refl

    or_loop-go :
        (n v w : ℕ) (text : Bytes) (ts rest : List Token)
        → parse_and_expr environment fuel inner ts ≡ some (w, rest)
        → or_loop environment fuel inner (suc n) v (mark (tk_dd_oper + b'|') text ∷ ts)
          ≡ or_loop environment fuel inner n (truth (not (v == 0) || not (w == 0))) rest
    unfolding or_loop
    or_loop-go n v w text ts rest run = rw run refl

    abbrev ReachesOr : Condition → List Token → Type 0
    ReachesOr c rest =
        (n : ℕ) × (length rest < n)
        × (parse_or environment fuel inner (tokens_of c rest)
            ≡ or_loop environment fuel inner n (value_of environment of_name c) rest)

    parse_or-and :
        (c : Condition) (rest : List Token)
        → depth c ≤ d
        → is_tree c ≡ true
        → level c ≤ 3
        → no_compare rest ≡ true
        → (kind_at rest == tk_dd_oper + b'&') ≡ false
        → Knows environment of_name fuel c
        → ReachesOr c rest
    unfolding parse_or
    parse_or-and c rest h v l stop no_and k =
        let run = parse_and_expr-ends c rest h v l stop no_and k in
        (suc (length rest), omega arith, rw run refl)

    parse_or-tokens :
        (c : Condition) (rest : List Token)
        → depth c ≤ d
        → is_tree c ≡ true
        → no_compare rest ≡ true
        → (kind_at rest == tk_dd_oper + b'&') ≡ false
        → Knows environment of_name fuel c
        → ReachesOr c rest
    parse_or-tokens (either a b) rest h v stop no_and k =
        let vb = and-right (is_tree a) (is_tree b && leb (level b) 3) v in
        let lb = and-right (is_tree b) (leb (level b) 3) vb in
        let step =
          parse_and_expr-ends b rest (omega (arith, h)) (and-left (is_tree b) _ vb)
            (ground (arith, lb)) stop no_and (λ n m. k n (Member-append_right (names_of a) m)) in
        let (n, room, run) =
          parse_or-tokens a (mark (tk_dd_oper + b'|') (codes "||") ∷ tokens_of b rest)
            (omega (arith, h)) (and-left (is_tree a) _ v) refl refl
            (λ n m. k n (Member-append_left (names_of b) m)) in
        let size = length-tokens_of b rest in
        let (m, e) = positive n _ room in
        (
          m,
          omega (arith, room, size, e),
          run ∙ rw e (or_loop-go m _ _ (codes "||") (tokens_of b rest) rest step),
        )
    parse_or-tokens (number cs) rest h v stop no_and k =
        parse_or-and (number cs) rest h v (omega arith) stop no_and k
    parse_or-tokens (name n) rest h v stop no_and k =
        parse_or-and (name n) rest h v (omega arith) stop no_and k
    parse_or-tokens (defined n) rest h v stop no_and k =
        parse_or-and (defined n) rest h v (omega arith) stop no_and k
    parse_or-tokens (defined_in n) rest h v stop no_and k =
        parse_or-and (defined_in n) rest h v (omega arith) stop no_and k
    parse_or-tokens (parenthesis c) rest h v stop no_and k =
        parse_or-and (parenthesis c) rest h v (omega arith) stop no_and k
    parse_or-tokens (negation c) rest h v stop no_and k =
        parse_or-and (negation c) rest h v (omega arith) stop no_and k
    parse_or-tokens (equal a b) rest h v stop no_and k =
        parse_or-and (equal a b) rest h v (omega arith) stop no_and k
    parse_or-tokens (unequal a b) rest h v stop no_and k =
        parse_or-and (unequal a b) rest h v (omega arith) stop no_and k
    parse_or-tokens (both a b) rest h v stop no_and k =
        parse_or-and (both a b) rest h v (omega arith) stop no_and k

    parse_or-ends :
        (c : Condition) (rest : List Token)
        → depth c ≤ d
        → is_tree c ≡ true
        → Knows environment of_name fuel c
        → is_behind rest ≡ true
        → parse_or environment fuel inner (tokens_of c rest)
          ≡ some (value_of environment of_name c, rest)
    unfolding or_loop
    parse_or-ends c rest h v k stop =
        let others = and-right (no_compare rest) _ stop in
        let no_or : (kind_at rest == tk_dd_oper + b'|') ≡ false = ground (arith, others) in
        let (n, room, run) =
          parse_or-tokens c rest h v (and-left (no_compare rest) _ stop) (ground (arith, others))
            k in
        let (m, e) = positive n _ room in run ∙ rw (e, no_or) refl

  parse_or_expr-Parses :
      (n : ℕ) → Parses environment of_name fuel n (parse_or_expr environment fuel n)
  unfolding parse_or_expr
  parse_or_expr-Parses zero c rest h v k stop = absurd (omega (arith, h))
  parse_or_expr-Parses (suc n) c rest h v k stop =
      parse_or-ends n (parse_or_expr environment fuel n) (parse_or_expr-Parses n) c rest
        (omega (arith, h)) v k stop

  -- On the tokens of a condition with nothing behind them that goes on with it, the parser gives the
  -- value of its tree and stops behind the tokens, when each name in it expands to a number; a depth of
  -- the number of tokens is enough.
  pub parse_or_expr-tokens_of :
      (c : Condition) (rest : List Token)
      → is_tree c ≡ true
      → Knows environment of_name fuel c
      → is_behind rest ≡ true
      → parse_or_expr environment fuel (length (tokens_of c rest)) (tokens_of c rest)
        ≡ some (value_of environment of_name c, rest)
  parse_or_expr-tokens_of c rest v k stop =
      let size = length-tokens_of c rest in
      parse_or_expr-Parses (length (tokens_of c rest)) c rest (omega (arith, size)) v k stop
