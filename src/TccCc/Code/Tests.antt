-- ===== src/TccCc/Code/Tests.antt =====
-- Concrete runs of the writing of code.
use mes_replacement.Prelude.{◌≡◌, refl, List, [], ◌∷◌, some, true, codes}
use mes_replacement.TccCc.Types.{BaseType, base, Target, type_is_pointer, size_of}
use mes_replacement.TccCc.Exprs.{Expr, node, nil, two_children, new_expr_int_value}
use mes_replacement.TccCc.Code.{◌>>=◌, Word, push_name, push_number, fetch, store, one, two}
use mes_replacement.TccCc.Code.Operands.{gen_canonical_cast, inc_dec_value}
use mes_replacement.TccCc.Code.Operators.{binary_words}
use mes_replacement.TccCc.Code.Branches.{set_code, binary_code}
use mes_replacement.TccCc.Code.Generate.{gen_expr, branch_of, branch_code, fetched}
use mes_replacement.TccCc.Code.Effect.{run}
use mes_replacement.TccCc.Code.Laws.Balance.{is_written, gen_expr-balance}

abbrev some_target : Target
some_target = record { long_long_size = 8; su_size = λ n. 0; su_members = λ n. [] }

-- `x = x + 2`
abbrev some_expr : Expr
some_expr =
    let x = node b'i' 0 (codes "x") (some (base BaseType.s32)) nil in
    two_children b'=' (some (base BaseType.s32)) x
      (two_children b'+' (some (base BaseType.s32)) x (new_expr_int_value 2))

abbrev some_words : List Word
some_words =
    push_name (codes "x")
    ∷ push_name (codes "x")
    ∷ fetch 4
    ∷ one (codes "long")
    ∷ push_number 2
    ∷ two (codes "+")
    ∷ one (codes "long")
    ∷ one (codes "long")
    ∷ store 4
    ∷ []

gen_expr-some_expr : gen_expr some_target some_expr true ≡ some some_words
unfolding gen_expr branch_of branch_code fetched set_code binary_code binary_words
    gen_canonical_cast inc_dec_value ◌>>=◌ type_is_pointer size_of
gen_expr-some_expr = refl

some_expr_written : is_written some_expr ≡ true
unfolding is_written branch_of
some_expr_written = refl

gen_expr-balance_example : run some_words (0, []) ≡ some (1, [])
gen_expr-balance_example =
    gen_expr-balance some_target some_expr true some_words 0 [] some_expr_written gen_expr-some_expr
