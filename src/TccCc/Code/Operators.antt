-- ===== src/TccCc/Code/Operators.antt =====
-- The words of the operators, behind those of their operands: branches of `gen_expr`.
use mes_replacement.Prelude.{
  ℕ, zero, suc, ◌+◌, ◌-◌, List, [], ◌∷◌, ◌++◌, Option, some, Bool, ◌||◌, ◌==◌, ltb, if◌then◌else◌,
  codes, Bytes,
}
use mes_replacement.TccCc.Tokens.Kinds.{tk_eq, tk_ne, tk_le, tk_ge, tk_ass, tk_dd_oper}
use mes_replacement.TccCc.Types.{CType, Target, size_of, type_is_pointer}
use mes_replacement.TccCc.Code.{
  ◌>>=◌, Word, push_name, push_number, fetch, store, two, copy, exchange, ignore, open_block, close,
  local_from,
}
use mes_replacement.TccCc.Code.Operands.{
  size_ind, gen_canonical_cast, inc_dec_value, scale, get_value, sign_mark,
}

abbrev pub plus_words : Target → Option CType → Option CType → Option (List Word)
plus_words g l r = do
  n ← inc_dec_value g l
  if ltb 1 n then some (scale n ++ (two (codes "+") ∷ [])) else (do
    m ← inc_dec_value g r
    some ((if ltb 1 m then exchange ∷ scale m else []) ++ (two (codes "+") ∷ [])))

abbrev pub minus_words : Target → Option CType → Option CType → Option (List Word)
minus_words g l r =
    if type_is_pointer l
    then (do
      n ← inc_dec_value g l
      some (
          if type_is_pointer r
          then two (codes "-p") ∷ (if ltb 1 n then push_number n ∷ two (codes "/") ∷ [] else [])
          else scale n ++ (two (codes "-") ∷ [])))
    else some (two (codes "-") ∷ [])

-- The text of an operator of one character or two.
abbrev pub operator_text : ℕ → Bytes
operator_text kind =
    if kind == tk_dd_oper + b'<'
    then codes "<<"
    else if kind == tk_dd_oper + b'>'
    then codes ">>"
    else if kind == tk_eq
    then codes "=="
    else if kind == tk_ne
    then codes "!="
    else kind ∷ []

unfoldable pub binary_words :
    Target → ℕ → Option CType → Option CType → Option CType → Option (List Word)
unfolding inc_dec_value
binary_words g kind type l r =
    let words =
      if kind == b'+'
      then plus_words g l r
      else if kind == b'-'
      then minus_words g l r
      else some (two (operator_text kind) ∷ []) in
    do
      ws ← words
      some (
          ws
          ++ (if kind == b'+' || (kind == b'-' || kind == b'*')
              then gen_canonical_cast g type
              else []))

abbrev pub compare_text : ℕ → Bytes
compare_text kind =
    if kind == tk_le then codes "<=" else if kind == tk_ge then codes ">=" else kind ∷ []

unfoldable pub compare_words : Target → ℕ → Option CType → Option CType → Option CType → List Word
compare_words g kind type l r =
    two (compare_text kind ++ sign_mark l r)
    ∷ (if kind == b'/' || kind == b'%' then gen_canonical_cast g type else [])

abbrev pub assign_text : ℕ → Bytes
assign_text kind =
    if kind == tk_ass + b'<'
    then codes "<<"
    else if kind == tk_ass + b'>'
    then codes ">>"
    else (kind - tk_ass) ∷ []

-- Behind the value of an assignment with an operator.
unfoldable pub assign_words :
    Target → ℕ → Option CType → Option CType → Option CType → Option (List Word)
unfolding inc_dec_value
assign_words g kind type l r =
    let op = kind - tk_ass in
    let scaled =
      if op == b'+' || op == b'-' then (do n ← inc_dec_value g l; some (scale n)) else some [] in
    let mark = if op == b'/' || op == b'%' then sign_mark l r else [] in
    let arithmetic = op == b'+' || (op == b'-' || (op == b'*' || (op == b'/' || op == b'%'))) in
    do
      ws ← scaled
      some (
          ws
          ++ (two (assign_text kind ++ mark)
              ∷ ((if arithmetic then gen_canonical_cast g type else [])
                  ++ (store (size_ind g type) ∷ []))))

-- `++` and `--`: the place, its value, and the new value in the place; behind the operand `after` takes
-- the change back.
unfoldable pub step_words :
    Target → Bytes → Bytes → Bool → Option CType → Option CType → Option (List Word)
unfolding inc_dec_value
step_words g change back after type operand = do
  n ← inc_dec_value g operand
  some (
      copy
      ∷ (get_value g type
          ++ (push_number n
              ∷ two change
              ∷ (gen_canonical_cast g type
                  ++ (store (size_ind g type)
                      ∷ (if after
                          then push_number n ∷ two back ∷ gen_canonical_cast g type
                          else []))))))

-- `trg ? %d + src ? %d + ? = ; ` for the words behind the first.
unfoldable pub move_words : ℕ → ℕ → ℕ → ℕ → List Word
move_words zero step i size = []
move_words (suc n) step i size =
    let rest = move_words n step (i + step) size in
    if ltb i size
    then push_name (codes "trg")
      ∷ fetch 0
      ∷ push_number i
      ∷ two (codes "+")
      ∷ push_name (codes "src")
      ∷ fetch 0
      ∷ push_number i
      ∷ two (codes "+")
      ∷ fetch 0
      ∷ store 0
      ∷ ignore
      ∷ rest
    else []

-- The assignment of more than one word.
unfoldable pub copy_words : Target → CType → List Word
unfolding move_words
copy_words g t =
    let step = g.long_long_size in
    open_block
    ∷ local_from (codes "src")
    ∷ local_from (codes "trg")
    ∷ push_name (codes "trg")
    ∷ fetch 0
    ∷ push_name (codes "src")
    ∷ fetch 0
    ∷ fetch 0
    ∷ store 0
    ∷ ignore
    ∷ (move_words (size_of g t) step step (size_of g t)
        ++ (push_name (codes "trg") ∷ fetch 0 ∷ close ∷ []))
