-- ===== src/TccCc/Code/Laws/Balance.antt =====
-- Whole expressions.
use mes_replacement.Prelude.{
  ℕ, zero, suc, ◌≡◌, refl, List, [], ◌∷◌, ◌++◌, Option, none, some, Bool, true, false, ◌&&◌,
  and-left, and-right, if◌then◌else◌, ap, subst, Bytes, arith,
}
use mes_replacement.TccCc.Types.{CType, Target}
use mes_replacement.TccCc.Exprs.{Expr, null, node, Exprs, nil, cons}
use mes_replacement.TccCc.Code.{◌>>=◌, Word, push_name, push_number, push_string}
use mes_replacement.TccCc.Code.Operands.{signed_words, is_lvalue_of, get_value}
use mes_replacement.TccCc.Code.Branches.{Child}
use mes_replacement.TccCc.Code.Generate.{
  Branch, of_name, of_number, of_string, of_cast, of_sequence, of_unary, of_binary, of_set,
  of_compare, of_assign, of_arrow, of_dot, of_index, of_call, of_negative, of_star, of_addr, of_or,
  of_and, of_choice, of_other, of_step, branch_of, branch_code, fetched, gen_expr, gen_children,
}
use mes_replacement.TccCc.Code.Effect.{Frame, run, Pushes, Makes, some-Makes, bind-Makes, run-Makes}
use mes_replacement.TccCc.Code.Laws.Operands.{signed_words-Keeps, get_value-Keeps}
use mes_replacement.TccCc.Code.Laws.Branches.{
  AllPush, then_Keeps, value_of_child-Pushes, address_of_child-Pushes, cast_code-Pushes,
  unary_code-Pushes, binary_code-Pushes,
}
use mes_replacement.TccCc.Code.Laws.Places.{
  set_code-Pushes, compare_code-Pushes, assign_code-Pushes, arrow_code-Pushes, dot_code-Pushes,
  index_code-Pushes, step_code-Pushes, negative_code-Pushes,
}
use mes_replacement.TccCc.Code.Laws.Choices.{
  or_code-Pushes, and_code-Pushes, choice_code-Pushes, is_some, sequence_code-Pushes,
}
use mes_replacement.TccCc.Code.Laws.Calls.{call_code-Pushes}

abbrev has_items : Exprs → Bool
has_items nil = false
has_items (cons e es) = true

-- There is a branch for the kind, and a sequence has an item.
abbrev is_handled : Branch → Exprs → Bool
is_handled of_other es = false
is_handled of_sequence es = has_items es
is_handled _ es = true

-- No part of the expression is NULL or of a kind without a branch.
unfoldable mutual
  unfolding branch_of

  pub is_written : Expr → Bool
  is_written null = false
  is_written (node kind v s type es) = is_handled (branch_of kind) es && are_written es

  pub are_written : Exprs → Bool
  are_written nil = true
  are_written (cons e es) = is_written e && are_written es

number_Pushes : (n : ℕ) (type : Option CType) → Pushes (push_number n ∷ signed_words type)
unfolding run ◌>>=◌
number_Pushes n type d fs = signed_words-Keeps type d fs

name_Pushes : (s : Bytes) → Pushes (push_name s ∷ [])
unfolding run ◌>>=◌
name_Pushes s d fs = refl

string_Pushes : (s : Bytes) → Pushes (push_string s ∷ [])
unfolding run ◌>>=◌
string_Pushes s d fs = refl

some_children : (g : Target) (es : Exprs) → has_items es ≡ true → is_some (gen_children g es) ≡ true
unfolding gen_children
some_children g nil h = absurd (ground (arith, h))
some_children g (cons e es) h = refl

branch_code-Pushes :
    (g : Target) (as_value : Bool) (kind v : ℕ) (s : Bytes) (type : Option CType) (es : Exprs)
    (b : Branch)
    → is_handled b es ≡ true
    → AllPush (gen_children g es)
    → Makes Pushes (branch_code g as_value kind v s type (gen_children g es) b)
unfolding branch_code
branch_code-Pushes g as_value kind v s type es of_name h all = some-Makes Pushes _ (name_Pushes s)
branch_code-Pushes g as_value kind v s type es of_number h all =
    some-Makes Pushes _ (number_Pushes _ type)
branch_code-Pushes g as_value kind v s type es of_string h all =
    some-Makes Pushes _ (string_Pushes _)
branch_code-Pushes g as_value kind v s type es of_cast h all =
    cast_code-Pushes (gen_children g es) all g type
branch_code-Pushes g as_value kind v s type es of_sequence h all =
    sequence_code-Pushes (gen_children g es) all (some_children g es h)
branch_code-Pushes g as_value kind v s type es of_unary h all =
    unary_code-Pushes (gen_children g es) all g kind type
branch_code-Pushes g as_value kind v s type es of_binary h all =
    binary_code-Pushes (gen_children g es) all g kind type
branch_code-Pushes g as_value kind v s type es of_set h all =
    set_code-Pushes (gen_children g es) all g type
branch_code-Pushes g as_value kind v s type es of_compare h all =
    compare_code-Pushes (gen_children g es) all g kind type
branch_code-Pushes g as_value kind v s type es of_assign h all =
    assign_code-Pushes (gen_children g es) all g kind type
branch_code-Pushes g as_value kind v s type es of_arrow h all =
    arrow_code-Pushes (gen_children g es) all v s
branch_code-Pushes g as_value kind v s type es of_dot h all =
    dot_code-Pushes (gen_children g es) all v s
branch_code-Pushes g as_value kind v s type es of_index h all =
    index_code-Pushes (gen_children g es) all g type
branch_code-Pushes g as_value kind v s type es of_call h all =
    call_code-Pushes g (gen_children g es) all
branch_code-Pushes g as_value kind v s type es of_negative h all =
    negative_code-Pushes (gen_children g es) all g type
branch_code-Pushes g as_value kind v s type es of_star h all =
    value_of_child-Pushes (gen_children g es) all 0
branch_code-Pushes g as_value kind v s type es of_addr h all =
    address_of_child-Pushes (gen_children g es) all 0
branch_code-Pushes g as_value kind v s type es of_or h all = or_code-Pushes (gen_children g es) all
branch_code-Pushes g as_value kind v s type es of_and h all =
    and_code-Pushes (gen_children g es) all
branch_code-Pushes g as_value kind v s type es of_choice h all =
    choice_code-Pushes (gen_children g es) all as_value
branch_code-Pushes g as_value kind v s type es of_other h all = absurd (ground (arith, h))
branch_code-Pushes g as_value kind v s type es (of_step change back after) h all =
    step_code-Pushes (gen_children g es) all g change back after type

fetched-Pushes :
    (g : Target) (as_value : Bool) (kind : ℕ) (type : Option CType) (ws : List Word)
    → Pushes ws
    → Makes Pushes (fetched g as_value kind type ws)
unfolding fetched
fetched-Pushes g false kind type ws p = some-Makes Pushes ws p
fetched-Pushes g true kind type ws p =
    bind-Makes Pushes (is_lvalue_of kind type) _ (λ place e. some-Makes Pushes _ (value_of place))
  where
    value_of : (place : Bool) → Pushes (if place then ws ++ get_value g type else ws)
    value_of true = then_Keeps ws (get_value g type) p (get_value-Keeps g type)
    value_of false = p

all_cons :
    (c : Child) (cs : List Child)
    → Makes Pushes c.value
    → Makes Pushes c.address
    → AllPush cs
    → AllPush (c ∷ cs)
all_cons c cs p q all zero x k =
    subst (λ y. Makes Pushes y.value × Makes Pushes y.address)
      (ap (λ o. elim o [ none ↦ c | some y ↦ y ]) k) (p, q)
all_cons c cs p q all (suc n) x k = all n x k

mutual
  unfolding gen_expr gen_children is_written

  every_value :
      (g : Target) (e : Expr) (as_value : Bool)
      → is_written e ≡ true
      → Makes Pushes (gen_expr g e as_value)
  every_value g null as_value h = absurd (ground (arith, h))
  every_value g (node kind v s type es) as_value h =
      run-Makes Pushes Pushes _ _
        (branch_code-Pushes g as_value kind v s type es (branch_of kind)
          (and-left (is_handled (branch_of kind) es) (are_written es) h)
          (every_child g es (and-right (is_handled (branch_of kind) es) (are_written es) h)))
        (λ ws p. fetched-Pushes g as_value kind type ws p)

  every_child : (g : Target) (es : Exprs) → are_written es ≡ true → AllPush (gen_children g es)
  every_child g nil h = λ n c e. absurd (ground (arith, e))
  every_child g (cons e es) h =
      all_cons _ (gen_children g es)
        (every_value g e true (and-left (is_written e) (are_written es) h))
        (every_value g e false (and-left (is_written e) (are_written es) h))
        (every_child g es (and-right (is_written e) (are_written es) h))

-- The code that is written for an expression, of which no part is NULL or of a kind without a branch and
-- no sequence is empty, leaves one value more on the stack and the brackets as they are, as a value and
-- not; from an empty stack on, so it takes nothing from below.
pub gen_expr-balance :
    (g : Target) (e : Expr) (as_value : Bool) (ws : List Word) (d : ℕ) (fs : List Frame)
    → is_written e ≡ true
    → gen_expr g e as_value ≡ some ws
    → run ws (d, fs) ≡ some (suc d, fs)
gen_expr-balance g e as_value ws d fs h k = every_value g e as_value h ws k d fs
