-- ===== src/TccCc/Parser.antt =====
-- The recursive descent parser of C expressions, over the tokens behind the preprocessor. A call that
-- goes deeper is a call of a parser with less fuel.
pub mod Specifiers
pub mod Nodes
pub mod Grammar
pub mod Trees
pub mod Laws
mod Tests
use mes_replacement.Prelude.{
  ℕ, zero, suc, ◌+◌, ◌-◌, List, [], ◌∷◌, ◌++◌, Option, none, some, Bool, true, false, not, ◌&&◌,
  ◌||◌, ◌==◌, leb, ltb, if◌then◌else◌, Bytes, length,
}
use mes_replacement.TccCc.Environment.{Token}
use mes_replacement.TccCc.Tokens.Kinds.{
  tk_eq, tk_ne, tk_le, tk_ge, tk_inc, tk_dec, tk_arrow, tk_ass, tk_dd_oper,
}
use mes_replacement.TccCc.Tokens.Values.{string_int_value}
use mes_replacement.TccCc.Types.{
  CType, BaseType, base, bool_type, pointer, Target, Member, Decl, size_of, member_0, new_ptr_type,
  base_signed_type, expr_dioper_type, is_typedef, find_decl, find_member,
}
use mes_replacement.TccCc.Exprs.{
  Expr, null, node, Exprs, nil, cons, oper_post_inc, oper_post_dec, oper_pre_inc, oper_pre_dec,
  oper_plus, oper_min, oper_star, oper_addr, one_child, two_children, three_children,
  new_expr_int_value, type_of, negated_int, children, last_type,
}

abbrev pub tk_sizeof : ℕ
tk_sizeof = 1020

abbrev pub max_const_strlen : ℕ
max_const_strlen = 8000

-- Behind the last token the iterator gives the kind 0.
abbrev pub cur_kind : List Token → ℕ
cur_kind [] = 0
cur_kind (t ∷ ts) = t.kind

abbrev pub cur_text : List Token → Bytes
cur_text [] = []
cur_text (t ∷ ts) = t.token

abbrev pub next_token : List Token → List Token
next_token [] = []
next_token (t ∷ ts) = ts

-- What a parser returns and the tokens that it leaves; nothing where the code exits or reads through
-- NULL, or where the fuel is used up.
abbrev pub Parsed : Type 0
Parsed = Option (Expr × List Token)

abbrev pub Parser : Type 0
Parser = List Token → Parsed

-- A call whose result is not tested.
abbrev pub unchecked : Parsed → (Expr × List Token → Parsed) → Parsed
unchecked none f = none
unchecked (some r) f = f r

-- A call with `if (expr == NULL) FAIL_NULL` behind it.
infixl 10 ◌>>=◌
abbrev pub ◌>>=◌ : Parsed → (Expr × List Token → Parsed) → Parsed
none >>= f = none
some (null, ts) >>= f = some (null, ts)
some (node kind v s type es, ts) >>= f = f (node kind v s type es, ts)

-- `if (!accept_term(kind)) FAIL_NULL`
abbrev pub expect : ℕ → List Token → (List Token → Parsed) → Parsed
expect kind ts f = if cur_kind ts == kind then f (next_token ts) else some (null, ts)

-- The parsers that the code calls again from inside.
pub record Parsers : Type 0 where
  pub expr : Parser
  pub assignment : Parser
  pub unary : Parser
  pub conditional : Parser

-- A string and those behind it.
unfoldable pub strings_from : List Token → Bytes × List Token
strings_from [] = ([], [])
strings_from (t ∷ ts) =
    let (text, rest) = strings_from ts in
    if t.kind == b'"' then (t.token ++ text, rest) else ([], t ∷ ts)

unfoldable pub parse_string : List Token → Parsed
unfolding strings_from
parse_string ts =
    let (text, rest) = strings_from ts in
    if leb (max_const_strlen - 1) (length text)
    then none
    else some (node b'"' (length text) text (some (pointer (base BaseType.s8))) nil, rest)

abbrev pub assigns : ℕ → Bool
assigns kind = kind == b'=' || (leb tk_ass kind && ltb kind (tk_ass + 127))

-- The operators of `parse_expr1` up to `parse_expr9`; 0 for any other kind.
abbrev pub operator_level : ℕ → ℕ
operator_level kind =
    if kind == b'*' || (kind == b'/' || kind == b'%')
    then 1
    else if kind == b'+' || kind == b'-'
    then 2
    else if kind == tk_dd_oper + b'<' || kind == tk_dd_oper + b'>'
    then 3
    else if (kind == tk_eq || kind == tk_ne)
        || ((kind == tk_le || kind == tk_ge) || (kind == b'<' || kind == b'>'))
    then 4
    else if kind == b'^'
    then 5
    else if kind == b'&'
    then 6
    else if kind == b'|'
    then 7
    else if kind == tk_dd_oper + b'&'
    then 8
    else if kind == tk_dd_oper + b'|'
    then 9
    else 0
