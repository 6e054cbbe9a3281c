-- ===== src/TccCc/Code/Operands.antt =====
-- What the writing of an expression asks of its types.
use mes_replacement.Prelude.{
  ℕ, List, [], ◌∷◌, Option, none, some, Bool, true, false, ◌&&◌, ◌||◌, ◌==◌, ltb, if◌then◌else◌,
  codes, Bytes,
}
use mes_replacement.TccCc.Tokens.Kinds.{tk_arrow}
use mes_replacement.TccCc.Types.{
  CType, BaseType, base, array, function, Target, size_of, base_of, type_is_pointer,
  type_is_signed_integer, member_0,
}
use mes_replacement.TccCc.Exprs.{Expr, null, node, oper_star}
use mes_replacement.TccCc.Code.{Word, push_number, push_mask, fetch, one, two}

-- `expr_size_ind`; 0 where nothing is written.
abbrev pub size_ind : Target → Option CType → ℕ
size_ind g none = 0
size_ind g (some t) =
    let size = size_of g t in
    if size == 1
    then 1
    else if size == 2
    then 2
    else if size == 4 && g.long_long_size == 8
    then 4
    else 0

-- `signed_ind`
abbrev pub signed_words : Option CType → List Word
signed_words (some (base BaseType.s8)) = one (codes "char") ∷ []
signed_words (some (base BaseType.s32)) = one (codes "long") ∷ []
signed_words _ = []

-- `multiple`
abbrev pub is_multiple : Target → Option CType → Bool
is_multiple g none = false
is_multiple g (some t) = ltb g.long_long_size (size_of g t)

abbrev pub mask : Bytes → List Word
mask m = push_mask m ∷ two (codes "&") ∷ []

abbrev pub cast_of_base : Target → BaseType → List Word
cast_of_base g BaseType.u8 = mask (codes "0xFF")
cast_of_base g BaseType.s8 = one (codes "char") ∷ []
cast_of_base g BaseType.u16 = mask (codes "0xFFFF")
cast_of_base g BaseType.u32 = if g.long_long_size == 8 then mask (codes "0xFFFFFFFF") else []
cast_of_base g BaseType.s32 = if g.long_long_size == 8 then one (codes "long") ∷ [] else []
cast_of_base g _ = []

unfoldable pub gen_canonical_cast : Target → Option CType → List Word
gen_canonical_cast g none = []
gen_canonical_cast g (some t) = elim (base_of t) [ none ↦ [] | some b ↦ cast_of_base g b ]

-- Neither an array nor a function.
abbrev pub is_plain : CType → Bool
is_plain (array t n) = false
is_plain (function t n more) = false
is_plain _ = true

-- The kinds that stand for a place.
abbrev pub is_place : ℕ → Bool
is_place kind =
    kind == b'i' || (kind == tk_arrow || (kind == b'.' || (kind == b'[' || kind == oper_star)))

-- Nothing where the type that the code looks into is NULL.
abbrev pub is_lvalue_of : ℕ → Option CType → Option Bool
is_lvalue_of kind type =
    if is_place kind then elim type [ none ↦ none | some t ↦ some (is_plain t) ] else some false

unfoldable pub is_lvalue : Expr → Option Bool
is_lvalue null = none
is_lvalue (node kind v s type es) = is_lvalue_of kind type

-- `expr_inc_dec_value`. More than 1 is what `expr_is_pointer_size_gt_1` asks for.
unfoldable pub inc_dec_value : Target → Option CType → Option ℕ
inc_dec_value g none = some 1
inc_dec_value g (some t) =
    if type_is_pointer (some t)
    then elim (member_0 t) [ none ↦ none | some u ↦ some (size_of g u) ]
    else some 1

-- `%d * ` where the size is more than 1.
abbrev pub scale : ℕ → List Word
scale n = if ltb 1 n then push_number n ∷ two (codes "*") ∷ [] else []

abbrev pub get_value : Target → Option CType → List Word
get_value g type = fetch (size_ind g type) ∷ signed_words type

-- `s` behind an operator with an operand that is signed.
abbrev pub sign_mark : Option CType → Option CType → Bytes
sign_mark l r = if type_is_signed_integer l || type_is_signed_integer r then codes "s" else []
