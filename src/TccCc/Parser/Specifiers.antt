-- ===== src/TccCc/Parser/Specifiers.antt =====
-- The types that may stand in an expression: `parse_type_specifier` and `parse_sizeof_type`. The
-- specifier behind `struct`, `union` or `enum` is a parameter.
use mes_replacement.Prelude.{ℕ, List, [], ◌∷◌, Option, none, some, ◌||◌, ◌==◌, if◌then◌else◌}
use mes_replacement.TccCc.Environment.{Token}
use mes_replacement.TccCc.Types.{CType, BaseType, base, pointer, Decl, is_typedef, find_decl}
use mes_replacement.TccCc.Parser.{cur_kind, cur_text, next_token}

abbrev tk_char : ℕ
tk_char = 1002

abbrev tk_const : ℕ
tk_const = 1003

abbrev tk_double : ℕ
tk_double = 1007

abbrev tk_enum : ℕ
tk_enum = 1009

abbrev tk_float : ℕ
tk_float = 1011

abbrev tk_int : ℕ
tk_int = 1016

abbrev tk_long : ℕ
tk_long = 1017

abbrev tk_short : ℕ
tk_short = 1019

abbrev tk_struct : ℕ
tk_struct = 1022

abbrev tk_union : ℕ
tk_union = 1025

abbrev tk_unsigned : ℕ
tk_unsigned = 1026

abbrev tk_void : ℕ
tk_void = 1027

abbrev pub Specified : Type 0
Specified = Option CType × List Token

-- `if (accept_term(kind)) {}`
abbrev pub skip_term : ℕ → List Token → List Token
skip_term kind ts = if cur_kind ts == kind then next_token ts else ts

-- Behind `unsigned`.
unfoldable pub unsigned_specifier : List Token → Specified
unsigned_specifier ts =
    let us = next_token ts in
    if cur_kind ts == tk_char
    then (some (base BaseType.u8), us)
    else if cur_kind ts == tk_short
    then (some (base BaseType.u16), us)
    else if cur_kind ts == tk_long
    then (if cur_kind us == tk_long
        then (some (base BaseType.u64), next_token us)
        else (some (base BaseType.u32), us))
    else (some (base BaseType.u32), skip_term tk_int ts)

-- Behind `long`.
unfoldable pub long_specifier : List Token → Specified
long_specifier ts =
    if cur_kind ts == tk_double
    then (some (base BaseType.double), next_token ts)
    else if cur_kind ts == tk_long
    then (some (base BaseType.s64), next_token ts)
    else (some (base BaseType.s32), ts)

-- A name that is a typedef.
unfoldable pub named_specifier : List Decl → List Token → Specified
named_specifier decls ts = elim (find_decl decls (cur_text ts)) [
  | none ↦ (none, ts)
  | some d ↦ elim (d.type) [
    | none ↦ (none, ts)
    | some t ↦ if is_typedef d then (some t, next_token ts) else (none, ts)
  ]
]

module _ (tagged : ℕ → List Token → Specified) (decls : List Decl) where
  -- Behind a `const` or without it.
  unfoldable pub plain_specifier : List Token → Specified
  unfolding unsigned_specifier long_specifier named_specifier
  plain_specifier ts =
      let kind = cur_kind ts in
      let us = next_token ts in
      if kind == tk_char
      then (some (base BaseType.s8), skip_term tk_const us)
      else if kind == tk_unsigned
      then unsigned_specifier us
      else if kind == tk_short
      then (some (base BaseType.u16), us)
      else if kind == tk_int
      then (some (base BaseType.s32), us)
      else if kind == tk_long
      then long_specifier us
      else if kind == tk_float
      then (some (base BaseType.float), us)
      else if kind == tk_double
      then (some (base BaseType.double), us)
      else if kind == tk_void
      then (some (base BaseType.void), us)
      else if kind == tk_struct || (kind == tk_union || kind == tk_enum)
      then tagged kind us
      else if kind == b'i'
      then named_specifier decls ts
      else (none, ts)

  unfoldable pub parse_type_specifier : List Token → Specified
  unfolding plain_specifier
  parse_type_specifier ts = plain_specifier (skip_term tk_const ts)

  -- `while (accept_term('*')) type = type_char_ptr;`
  unfoldable pub sizeof_stars : Option CType → List Token → Specified
  sizeof_stars type [] = (type, [])
  sizeof_stars type (t ∷ ts) =
      let rest = sizeof_stars (some (pointer (base BaseType.s8))) ts in
      if t.kind == b'*' then rest else (type, t ∷ ts)

  abbrev starred : Specified → Specified
  starred (none, ts) = (none, ts)
  starred (some type, ts) = sizeof_stars (some type) ts

  -- The types behind `sizeof (`. The struct of a `struct` is found by the parameter.
  unfoldable pub parse_sizeof_type : (List Token → Specified) → List Token → Specified
  unfolding sizeof_stars named_specifier
  parse_sizeof_type struct_of ts =
      let kind = cur_kind ts in
      let us = next_token ts in
      if kind == tk_char
      then starred (some (base BaseType.s8), us)
      else if kind == tk_int
      then starred (some (base BaseType.s32), us)
      else if kind == tk_unsigned
      then starred (some (base BaseType.u32), skip_term tk_int us)
      else if kind == tk_double
      then starred (some (base BaseType.double), us)
      else if kind == tk_void
      then (if cur_kind us == b'*'
          then starred (some (pointer (base BaseType.s8)), next_token us)
          else (none, us))
      else if kind == tk_struct
      then starred (struct_of us)
      else if kind == b'i'
      then starred (named_specifier decls ts)
      else (none, ts)
