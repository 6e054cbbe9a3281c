-- ===== src/TccCc/Conditions.antt =====
-- The expressions of `#if` and `#elif`. The token iterator is the list of the tokens that are left on
-- the line; behind them it gives the line feed again and again.
pub mod Trees
pub mod Laws
pub mod Names
pub mod Chains
use mes_replacement.Prelude.{
  ℕ, zero, suc, ◌+◌, List, [], ◌∷◌, Option, none, some, Bool, true, false, not, ◌&&◌, ◌||◌, ◌==◌,
  if◌then◌else◌, Bytes, length,
}
use mes_replacement.TccCc.Environment.{Token, Macro, find_env}
use mes_replacement.TccCc.Tokens.Kinds.{tk_eq, tk_ne, tk_dd_oper, tk_defined}
use mes_replacement.TccCc.Tokens.Values.{string_int_value}

abbrev pub kind_at : List Token → ℕ
kind_at [] = b'\n'
kind_at (t ∷ ts) = t.kind

abbrev pub text_at : List Token → Bytes
text_at [] = []
text_at (t ∷ ts) = t.token

-- `token_it_next(it->_token_it, FALSE)`
abbrev pub token_it_next : List Token → List Token
token_it_next [] = []
token_it_next (t ∷ ts) = ts

-- `if (it->_token_it->kind == kind) token_it_next(it->_token_it, FALSE);`
abbrev pub skip_kind : ℕ → List Token → List Token
skip_kind kind ts = if kind_at ts == kind then token_it_next ts else ts

abbrev pub truth : Bool → ℕ
truth b = if b then 1 else 0

-- The value of the expression at the tokens and the tokens behind it; nothing where the fuel is used
-- up.
abbrev pub Parsed : Type 0
Parsed = Option (ℕ × List Token)

infixl 10 ◌>>=◌
abbrev ◌>>=◌ : Parsed → (ℕ × List Token → Parsed) → Parsed
none >>= f = none
some x >>= f = f x

module _ (environment : List Macro) where
  -- `env != NULL && env->tokens != NULL`, the first token, and whether it is a name.
  abbrev pub first_token : Option Macro → Option Token
  first_token none = none
  first_token (some m) = elim (m.tokens) [ [] ↦ none | t ∷ ts ↦ some t ]

  -- The loop over the names that a name expands to.
  unfoldable pub expand : ℕ → Option Macro → Option (Option Macro)
  expand zero env = none
  expand (suc fuel) env = elim (first_token env) [
    | none ↦ some env
    | some t ↦
        let rest = expand fuel (find_env environment (t.token)) in
        if t.kind == b'i' then rest else some env
  ]

  abbrev pub number_of : Option Macro → ℕ
  number_of env = elim (first_token env) [
    | none ↦ 0
    | some t ↦ if t.kind == b'0' then string_int_value (t.token) else 0
  ]

  unfoldable pub defined_value : Bytes → ℕ
  defined_value n = elim (find_env environment n) [ none ↦ 0 | some m ↦ 1 ]

  unfoldable pub name_value : ℕ → Bytes → Option ℕ
  unfolding expand
  name_value fuel n = elim (expand fuel (find_env environment n)) [
    | none ↦ none
    | some env ↦ some (number_of env)
  ]

  -- The pointer `_parse_or_expr` is the argument of the parsers here.
  module _ (fuel : ℕ) (parse_or_expr : List Token → Parsed) where
    unfoldable pub parse_primary : List Token → Parsed
    unfolding defined_value name_value
    parse_primary ts =
        let us = token_it_next ts in
        let vs = token_it_next us in
        let inner = parse_or_expr us in
        if kind_at ts == b'('
        then (do (result, rest) ← inner; some (result, skip_kind b')' rest))
        else if kind_at ts == tk_defined
        then (if kind_at us == b'('
            then some (defined_value (text_at vs), skip_kind b')' (token_it_next vs))
            else some (defined_value (text_at us), vs))
        else if kind_at ts == b'0'
        then some (string_int_value (text_at ts), us)
        else if kind_at ts == b'i'
        then elim (name_value fuel (text_at ts)) [ none ↦ none | some v ↦ some (v, us) ]
        else some (0, ts)

    unfoldable pub parse_unary_expr : List Token → Parsed
    unfolding parse_primary
    parse_unary_expr ts =
        if kind_at ts == b'!'
        then (do
          (result, rest) ← parse_primary (token_it_next ts)
          some (truth (result == 0), rest))
        else parse_primary ts

    unfoldable pub parse_compare_expr : List Token → Parsed
    unfolding parse_unary_expr
    parse_compare_expr ts = do
      (value, us) ← parse_unary_expr ts
      if kind_at us == tk_eq
          then (do
            (other, vs) ← parse_unary_expr (token_it_next us)
            some (truth (value == other), vs))
          else if kind_at us == tk_ne
          then (do
            (other, vs) ← parse_unary_expr (token_it_next us)
            some (truth (not (value == other)), vs))
          else some (value, us)

    unfoldable pub and_loop : ℕ → ℕ → List Token → Parsed
    unfolding parse_compare_expr
    and_loop zero value ts = none
    and_loop (suc n) value ts =
        let rest = (do
          (value2, us) ← parse_compare_expr (token_it_next ts)
          and_loop n (truth (not (value == 0) && not (value2 == 0))) us) in
        if kind_at ts == tk_dd_oper + b'&' then rest else some (value, ts)

    unfoldable pub parse_and_expr : List Token → Parsed
    unfolding parse_compare_expr and_loop
    parse_and_expr ts = do (value, us) ← parse_compare_expr ts; and_loop (suc (length us)) value us

    unfoldable pub or_loop : ℕ → ℕ → List Token → Parsed
    unfolding parse_and_expr
    or_loop zero value ts = none
    or_loop (suc n) value ts =
        let rest = (do
          (value2, us) ← parse_and_expr (token_it_next ts)
          or_loop n (truth (not (value == 0) || not (value2 == 0))) us) in
        if kind_at ts == tk_dd_oper + b'|' then rest else some (value, ts)

    unfoldable pub parse_or : List Token → Parsed
    unfolding parse_and_expr or_loop
    parse_or ts = do (value, us) ← parse_and_expr ts; or_loop (suc (length us)) value us

  -- `conditional_iterator_parse_or_expr`, up to a depth of parentheses.
  unfoldable pub parse_or_expr : ℕ → ℕ → List Token → Parsed
  unfolding parse_or
  parse_or_expr fuel zero ts = none
  parse_or_expr fuel (suc depth) ts = parse_or fuel (parse_or_expr fuel depth) ts
