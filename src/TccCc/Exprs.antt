-- ===== src/TccCc/Exprs.antt =====
-- `expr_s`: the expressions that the C compiler builds. `filename`, `line` and `column` are left out.
use mes_replacement.Prelude.{
  ℕ, ◌-◌, ◌+◌, ◌%◌, ◌^◌, ltb, if◌then◌else◌, Option, none, some, [], Bytes,
}
use mes_replacement.TccCc.Types.{CType, BaseType, base}

-- `null` is the pointer NULL. The kind is that of a token or one of the kinds below.
mutual
  pub data Expr : Type 0 where
    null : Expr
    node : ℕ → ℕ → Bytes → Option CType → Exprs → Expr

  pub data Exprs : Type 0 where
    nil : Exprs
    cons : Expr → Exprs → Exprs

abbrev pub oper_post_inc : ℕ
oper_post_inc = 2000

abbrev pub oper_post_dec : ℕ
oper_post_dec = 2001

abbrev pub oper_pre_inc : ℕ
oper_pre_inc = 2002

abbrev pub oper_pre_dec : ℕ
oper_pre_dec = 2003

abbrev pub oper_plus : ℕ
oper_plus = 2004

abbrev pub oper_min : ℕ
oper_min = 2005

abbrev pub oper_star : ℕ
oper_star = 2006

abbrev pub oper_addr : ℕ
oper_addr = 2007

-- `new_expr` with a type and one child, two or three.
abbrev pub one_child : ℕ → Option CType → Expr → Expr
one_child kind type a = node kind 0 [] type (cons a nil)

abbrev pub two_children : ℕ → Option CType → Expr → Expr → Expr
two_children kind type a b = node kind 0 [] type (cons a (cons b nil))

abbrev pub three_children : ℕ → Option CType → Expr → Expr → Expr → Expr
three_children kind type a b c = node kind 0 [] type (cons a (cons b (cons c nil)))

abbrev pub new_expr_int_value : ℕ → Expr
new_expr_int_value v = node b'0' v [] (some (base BaseType.u32)) nil

-- The 32 bits of a `char`, which is signed.
abbrev pub char_value : ℕ → ℕ
char_value c = if ltb c 128 then c else 2 ^ 32 - 256 + c

-- `expr->type`
abbrev pub type_of : Expr → Option CType
type_of null = none
type_of (node kind v s type es) = type

-- The 32 bits of the negated value.
abbrev pub negated_int : ℕ → ℕ
negated_int v = (2 ^ 32 - v % 2 ^ 32) % 2 ^ 32

abbrev pub children : Expr → Exprs
children null = nil
children (node kind v s type es) = es

abbrev pub last_type : Exprs → Option CType
last_type nil = none
last_type (cons e nil) = type_of e
last_type (cons e (cons d es)) = last_type (cons d es)
