-- ===== src/TccCc/Code/Branches.antt =====
-- The branches of `gen_expr` over what is written for the children. What the code would do at a pointer
-- that is NULL, or behind the children of a node, has no result. The messages are left out.
use mes_replacement.Prelude.{
  ℕ, zero, suc, ◌+◌, ◌*◌, ◌^◌, List, [], ◌∷◌, ◌++◌, Option, none, some, Bool, true, false, ◌&&◌,
  ◌==◌, leb, ltb, if◌then◌else◌, codes, Bytes,
}
use mes_replacement.TccCc.Tokens.Kinds.{tk_dd_oper}
use mes_replacement.TccCc.Types.{CType, BaseType, base_code, pointer, Target, size_of, base_of}
use mes_replacement.TccCc.Exprs.{Expr, null, node, type_of}
use mes_replacement.TccCc.Code.{
  ◌>>=◌, Word, push_number, push_member, arrow_member, store, one, two, copy, ignore, open_if,
  otherwise, close,
}
use mes_replacement.TccCc.Code.Operands.{
  size_ind, is_multiple, gen_canonical_cast, is_lvalue, scale, get_value,
}
use mes_replacement.TccCc.Code.Operators.{
  binary_words, compare_words, assign_words, step_words, copy_words,
}

-- A child and what `gen_expr` writes for it, as a value and not.
pub record Child : Type 0 where
  pub of : Expr
  pub value : Option (List Word)
  pub address : Option (List Word)

abbrev pub child : ℕ → List Child → Option Child
child n [] = none
child zero (c ∷ cs) = some c
child (suc n) (c ∷ cs) = child n cs

abbrev pub value_of_child : ℕ → List Child → Option (List Word)
value_of_child n cs = do c ← child n cs; c.value

abbrev pub address_of_child : ℕ → List Child → Option (List Word)
address_of_child n cs = do c ← child n cs; c.address

-- The type of a child that is not NULL.
abbrev pub type_of_child : ℕ → List Child → Option (Option CType)
type_of_child n cs = do c ← child n cs; elim (c.of) [ null ↦ none | node k v s type es ↦ some type ]

abbrev pub is_pointer_kind : CType → Bool
is_pointer_kind (pointer t) = true
is_pointer_kind CType.untyped_pointer = true
is_pointer_kind _ = false

abbrev pub same_base : Option BaseType → BaseType → Bool
same_base none b = false
same_base (some a) b = base_code a == base_code b

abbrev pub cast_to_base : Target → CType → BaseType → List Child → Option (List Word)
cast_to_base g t b cs = do
  ws ← value_of_child 0 cs
  type ← type_of_child 0 cs
  d ← type
  some (ws ++ (if same_base (base_of d) b then [] else gen_canonical_cast g (some t)))

abbrev pub cast_to_other : Target → CType → List Child → Option (List Word)
cast_to_other g t cs = do
  ws ← address_of_child 0 cs
  c ← child 0 cs
  place ← is_lvalue c.of
  if place then some (ws ++ get_value g (some t)) else elim (type_of c.of) [
    | none ↦ if is_pointer_kind t then none else some ws
    | some d ↦ some ws
  ]

unfoldable pub cast_code : Target → Option CType → List Child → Option (List Word)
unfolding gen_canonical_cast is_lvalue
cast_code g none cs = none
cast_code g (some t) cs = elim (base_of t) [
  | none ↦ cast_to_other g t cs
  | some b ↦ cast_to_base g t b cs
]

-- The children of `,` and of a list in braces.
unfoldable pub sequence_code : List Child → Option (List Word)
sequence_code [] = some []
sequence_code (c ∷ []) = c.value
sequence_code (c ∷ d ∷ cs) = do
  ws ← c.value
  vs ← sequence_code (d ∷ cs)
  some (ws ++ (ignore ∷ vs))

unfoldable pub unary_code : Target → ℕ → Option CType → List Child → Option (List Word)
unfolding gen_canonical_cast
unary_code g kind type cs = do
  ws ← value_of_child 0 cs
  some (ws ++ (one (kind ∷ []) ∷ (if kind == b'~' then gen_canonical_cast g type else [])))

-- A shift to the right by a constant, by all the bits of a word.
abbrev pub shifts_out : Target → ℕ → List Child → Option Bool
shifts_out g kind cs =
    if kind == tk_dd_oper + b'>'
    then (do
      c ← child 1 cs
      elim (c.of) [
        | null ↦ none
        | node k v s type es ↦ some (k == b'0' && (leb (g.long_long_size * 8) v && ltb v (2 ^ 31)))
      ])
    else some false

unfoldable pub binary_code : Target → ℕ → Option CType → List Child → Option (List Word)
unfolding binary_words
binary_code g kind type cs = do
  out ← shifts_out g kind cs
  if out then some (push_number 0 ∷ []) else (do
    a ← value_of_child 0 cs
    b ← value_of_child 1 cs
    l ← type_of_child 0 cs
    r ← type_of_child 1 cs
    ws ← binary_words g kind type l r
    some (a ++ (b ++ ws)))

abbrev pub store_value : Target → Option CType → List Child → Option (List Word)
store_value g type cs = do
  b ← value_of_child 1 cs
  some (b ++ (gen_canonical_cast g type ++ (store (size_ind g type) ∷ [])))

abbrev pub copy_value : Target → CType → List Child → Option (List Word)
copy_value g t cs = do b ← address_of_child 1 cs; some (b ++ copy_words g t)

abbrev pub set_value : Target → Option CType → List Child → Option (List Word)
set_value g none cs = store_value g none cs
set_value g (some t) cs =
    if is_multiple g (some t) then copy_value g t cs else store_value g (some t) cs

unfoldable pub set_code : Target → Option CType → List Child → Option (List Word)
unfolding gen_canonical_cast copy_words
set_code g type cs = do a ← address_of_child 0 cs; ws ← set_value g type cs; some (a ++ ws)

unfoldable pub compare_code : Target → ℕ → Option CType → List Child → Option (List Word)
unfolding compare_words
compare_code g kind type cs = do
  a ← value_of_child 0 cs
  b ← value_of_child 1 cs
  l ← type_of_child 0 cs
  r ← type_of_child 1 cs
  some (a ++ (b ++ compare_words g kind type l r))

unfoldable pub assign_code : Target → ℕ → Option CType → List Child → Option (List Word)
unfolding assign_words
assign_code g kind type cs = do
  a ← address_of_child 0 cs
  b ← value_of_child 1 cs
  l ← type_of_child 0 cs
  r ← type_of_child 1 cs
  ws ← assign_words g kind type l r
  some (a ++ (copy ∷ (get_value g type ++ (b ++ ws))))

unfoldable pub arrow_code : ℕ → Bytes → List Child → Option (List Word)
unfolding is_lvalue
arrow_code nr name cs = do
  a ← address_of_child 0 cs
  c ← child 0 cs
  place ← is_lvalue c.of
  some (
      a
      ++ (if place then arrow_member nr name ∷ [] else push_member nr name ∷ two (codes "+") ∷ []))

unfoldable pub dot_code : ℕ → Bytes → List Child → Option (List Word)
dot_code nr name cs = do
  a ← address_of_child 0 cs
  some (a ++ (push_member nr name ∷ two (codes "+") ∷ []))

unfoldable pub index_code : Target → Option CType → List Child → Option (List Word)
index_code g type cs = do
  a ← value_of_child 0 cs
  b ← value_of_child 1 cs
  t ← type
  some (a ++ (b ++ (scale (size_of g t) ++ (two (codes "+") ∷ []))))

unfoldable pub step_code :
    Target → Bytes → Bytes → Bool → Option CType → List Child → Option (List Word)
unfolding step_words
step_code g change back after type cs = do
  a ← address_of_child 0 cs
  operand ← type_of_child 0 cs
  ws ← step_words g change back after type operand
  some (a ++ ws)

unfoldable pub negative_code : Target → Option CType → List Child → Option (List Word)
unfolding gen_canonical_cast
negative_code g type cs = do
  a ← value_of_child 0 cs
  some (push_number 0 ∷ (a ++ (two (codes "-") ∷ gen_canonical_cast g type)))

unfoldable pub short_code : Word → List Child → Option (List Word)
short_code opening cs = do
  a ← value_of_child 0 cs
  b ← value_of_child 1 cs
  some (a ++ (opening ∷ (b ++ (close ∷ []))))

abbrev pub written : Bool → Child → Option (List Word)
written as_value c = if as_value then c.value else c.address

unfoldable pub choice_code : Bool → List Child → Option (List Word)
choice_code as_value cs = do
  c ← value_of_child 0 cs
  a ← child 1 cs
  b ← child 2 cs
  ws ← written as_value a
  vs ← written as_value b
  some (c ++ (open_if ∷ (ws ++ (otherwise ∷ (vs ++ (close ∷ []))))))
