-- ===== src/TccCc/Types.antt =====
-- Types and declarations of the C compiler. A struct or a union stands for its number: its size and
-- its members, which the code fills in later, are looked up.
use mes_replacement.Prelude.{
  ℕ, ◌*◌, ◌/◌, ◌%◌, List, [], ◌∷◌, Option, none, some, Bool, true, false, ◌&&◌, ◌||◌, ◌==◌, ltb,
  if◌then◌else◌, same_text, Bytes,
}

pub data BaseType : Type 0 where
  void s8 u8 s16 u16 s32 u32 s64 u64 float double jmp_buf file time_t : BaseType

-- The value of the enumerator: two bits for the sign, and the type behind them.
abbrev pub base_code : BaseType → ℕ
base_code void = 0
base_code s8 = 7
base_code u8 = 5
base_code s16 = 11
base_code u16 = 9
base_code s32 = 15
base_code u32 = 13
base_code s64 = 19
base_code u64 = 17
base_code float = 23
base_code double = 27
base_code jmp_buf = 28
base_code file = 32
base_code time_t = 36

-- `type_s` by its kind. `base_type_bool` is an object of its own. A function has its result, the number
-- of its declarations and whether the last one stands for more arguments; those of
-- `add_predefined_types` are left out. `enum_type` is an enum without a name: one with a name, to which
-- the code gives the kind of a pointer, is left out.
pub data CType : Type 0 where
  base : BaseType → CType
  bool_type : CType
  struct_type union_type : ℕ → CType
  pointer : CType → CType
  untyped_pointer : CType
  array : CType → ℕ → CType
  function : CType → ℕ → Bool → CType
  enum_type : CType

-- A declaration of a member: its name, its type and the number of its struct.
pub record Member : Type 0 where
  pub name : Bytes
  pub type : CType
  pub su_nr : ℕ

-- `long_long_size`, and what is known of the structs and unions.
pub record Target : Type 0 where
  pub long_long_size : ℕ
  pub su_size : ℕ → ℕ
  pub su_members : ℕ → List Member

abbrev pub base_size : ℕ → BaseType → ℕ
base_size long_long s8 = 1
base_size long_long u8 = 1
base_size long_long s16 = 2
base_size long_long u16 = 2
base_size long_long s32 = 4
base_size long_long u32 = 4
base_size long_long float = 4
base_size long_long _ = long_long

unfoldable pub size_of : Target → CType → ℕ
size_of g (base b) = base_size g.long_long_size b
size_of g bool_type = 4
size_of g (struct_type n) = g.su_size n
size_of g (union_type n) = g.su_size n
size_of g (pointer t) = g.long_long_size
size_of g untyped_pointer = g.long_long_size
size_of g (array t n) = n * size_of g t
size_of g (function t n more) = 4
size_of g enum_type = 4

-- `type->base_type` of a type of the kind `TYPE_KIND_BASE`.
abbrev pub base_of : CType → Option BaseType
base_of (base b) = some b
base_of bool_type = some u32
base_of _ = none

unfoldable pub type_is_integer : Option CType → Bool
type_is_integer none = false
type_is_integer (some t) = elim (base_of t) [ none ↦ false | some b ↦ base_code b % 2 == 1 ]

unfoldable pub type_is_signed_integer : Option CType → Bool
type_is_signed_integer none = false
type_is_signed_integer (some t) = elim (base_of t) [ none ↦ false | some b ↦ base_code b % 4 == 3 ]

unfoldable pub type_is_pointer : Option CType → Bool
type_is_pointer (some (pointer t)) = true
type_is_pointer (some untyped_pointer) = true
type_is_pointer (some (array t n)) = true
type_is_pointer _ = false

-- `type->members[0]`
abbrev pub member_0 : CType → Option CType
member_0 (pointer t) = some t
member_0 (array t n) = some t
member_0 (function t n more) = some t
member_0 _ = none

unfoldable pub new_ptr_type : Option CType → CType
new_ptr_type none = untyped_pointer
new_ptr_type (some t) = pointer t

unfoldable pub base_signed_type : CType → CType
base_signed_type (base u8) = base s8
base_signed_type (base u16) = base s16
base_signed_type (base u32) = base s32
base_signed_type (base u64) = base s64
base_signed_type t = t

-- The larger type of two integers.
abbrev integer_type : ℕ → Bool → CType
integer_type size signed_int =
    if size == 8
    then (if signed_int then base s64 else base u64)
    else if size == 4
    then (if signed_int then base s32 else base u32)
    else if size == 2
    then (if signed_int then base s16 else base u16)
    else if signed_int
    then base s8
    else base u8

abbrev sign_bit : CType → Bool
sign_bit t = elim (base_of t) [ none ↦ false | some b ↦ base_code b / 2 % 2 == 1 ]

abbrev dioper_integer : Target → CType → CType → CType
dioper_integer g a b =
    let size = if ltb (size_of g b) (size_of g a) then size_of g a else size_of g b in
    integer_type size (sign_bit a || sign_bit b)

abbrev both_types : Target → Option CType → Option CType → Option CType
both_types g (some a) (some b) = some (dioper_integer g a b)
both_types g _ _ = none

-- `expr_dioper_set_type`: the type of an expression of the kind and its operands.
unfoldable pub expr_dioper_type : Target → ℕ → Option CType → Option CType → Option CType
unfolding type_is_integer type_is_pointer size_of
expr_dioper_type g kind lhs rhs =
    if type_is_integer lhs && type_is_integer rhs
    then both_types g lhs rhs
    else if type_is_pointer lhs && type_is_integer rhs
    then lhs
    else if type_is_integer lhs && type_is_pointer rhs
    then rhs
    else if kind == b'-' && (type_is_pointer lhs && type_is_pointer rhs)
    then some (base s32)
    else none

-- The storage of a declaration, with the value of a constant.
pub data Storage : Type 0 where
  no_storage static_storage typedef_storage : Storage
  const_storage : ℕ → Storage

-- `decl_s` of a name.
pub record Decl : Type 0 where
  pub name : Bytes
  pub type : Option CType
  pub storage : Storage

abbrev pub is_typedef : Decl → Bool
is_typedef d = elim (d.storage) [ typedef_storage ↦ true | _ ↦ false ]

-- The newest declaration comes first.
unfoldable pub find_decl : List Decl → Bytes → Option Decl
find_decl [] n = none
find_decl (d ∷ ds) n = let rest = find_decl ds n in if same_text d.name n then some d else rest

unfoldable pub type_decl : List Member → Bytes → Option Member
type_decl [] n = none
type_decl (d ∷ ds) n = let rest = type_decl ds n in if same_text d.name n then some d else rest

-- The declarations of a struct or a union; those of a function, its parameters, are left out.
abbrev members_of : Target → CType → List Member
members_of g (struct_type n) = g.su_members n
members_of g (union_type n) = g.su_members n
members_of g _ = []

-- The member of the type with the name, if it has one.
unfoldable pub find_member : Target → Option CType → Bytes → Option Member
unfolding type_decl
find_member g none n = none
find_member g (some t) n = type_decl (members_of g t) n
