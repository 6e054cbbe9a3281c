-- ===== src/StackC/Handlers/Blocks.antt =====
-- The branches that open and close blocks, and the jumps out of them.
use mes_replacement.Prelude.{
  ℕ, ◌+◌, List, [], ◌∷◌, Bool, true, false, not, Option, none, some, ◌==◌, if◌then◌else◌, Bytes,
}
use mes_replacement.StackC.Emit.{
  Emit, loop_label, jump_loop_end, jump_switch_end, jump_loop, if_test, and_test, or_test,
  loop_close, switch_close, else_jump, else_label, else_missing, else_close, and_close, or_close,
}
use mes_replacement.StackC.State.{
  NestType, block, loop, switch, if_arm, else_arm, and_arm, or_arm, Nest, Compiler, Outcome, next,
  again, exits, one_status, sym_of, next_token, emit, nesting_full, oldest, open_nest,
}

-- `nesting_id[nesting_depth] = id++` and the rest of the entry.
abbrev pub open_numbered : NestType → Compiler → Outcome
open_numbered type c =
    if nesting_full c
    then exits one_status c
    else next (record (open_nest type c.id c) { id = c.id + 1 })

unfoldable pub handle_loop : Compiler → Outcome
handle_loop c₀ =
    let c = next_token c₀ in
    if not (sym_of c == b'{')
    then exits one_status c
    else open_numbered loop (emit (loop_label c.function_name c.id) c)

unfoldable pub handle_switch : Compiler → Outcome
handle_switch c₀ =
    let c = next_token c₀ in
    if not (sym_of c == b'{') then exits one_status c else open_numbered switch c

-- `if`, `&&` and `||`: a test that jumps behind the block, then the block.
unfoldable pub handle_test : NestType → (Bytes → ℕ → Emit) → Compiler → Outcome
handle_test type test c₀ =
    let c = next_token c₀ in
    if not (sym_of c == b'{')
    then exits one_status c
    else open_numbered type (emit (test c.function_name c.id) c)

unfoldable pub handle_if : Compiler → Outcome
unfolding handle_test
handle_if = handle_test if_arm if_test

unfoldable pub handle_and : Compiler → Outcome
unfolding handle_test
handle_and = handle_test and_arm and_test

unfoldable pub handle_or : Compiler → Outcome
unfolding handle_test
handle_or = handle_test or_arm or_test

unfoldable pub handle_open : Compiler → Outcome
handle_open c = next (open_nest block 0 c)

-- The innermost loop, or for `break` (the flag) the innermost loop or switch.
unfoldable pub find_target : Bool → List Nest → Option Nest
find_target breaks [] = none
find_target breaks (n ∷ rest) = elim n.type [
  | loop ↦ some n
  | switch ↦ if breaks then some n else find_target breaks rest
  | _ ↦ find_target breaks rest
]

unfoldable pub jump_out : NestType → Bytes → ℕ → Emit
jump_out loop f id = jump_loop_end f id
jump_out _ f id = jump_switch_end f id

unfoldable pub handle_break : Compiler → Outcome
handle_break c = elim (find_target true c.nesting) [
  | none ↦ exits one_status c
  | some n ↦ next (emit (jump_out n.type c.function_name n.id) c)
]

unfoldable pub handle_continue : Compiler → Outcome
handle_continue c = elim (find_target false c.nesting) [
  | none ↦ exits one_status c
  | some n ↦ next (emit (jump_loop c.function_name n.id) c)
]

-- Behind the block of an `if`: an `else` with its block, or nothing.
unfoldable pub close_if : ℕ → Compiler → Outcome
close_if id c₀ =
    let c = next_token c₀ in
    if sym_of c == b'E'
    then (let k = next_token c in
        if not (sym_of k == b'{')
        then exits one_status k
        else (let j =
              emit (else_label k.function_name id) (emit (else_jump k.function_name id) k) in
            if nesting_full j then exits one_status j else next (open_nest else_arm id j)))
    else again (emit (else_missing c.function_name id) c)

unfoldable pub close_nest : NestType → ℕ → Compiler → Outcome
close_nest block id c = next c
close_nest loop id c = next (emit (loop_close c.function_name id) c)
close_nest switch id c = next (emit (switch_close c.function_name id) c)
close_nest if_arm id c = close_if id c
close_nest else_arm id c = next (emit (else_close c.function_name id) c)
close_nest and_arm id c = next (emit (and_close c.function_name id) c)
close_nest or_arm id c = next (emit (or_close c.function_name id) c)

-- `}`: the identifiers and the position of the block's start come back.
unfoldable pub close_block : List Nest → Compiler → Outcome
close_block [] c = exits one_status c
close_block (n ∷ rest) c =
    close_nest n.type n.id
      (record c { nesting = rest; idents = oldest n.nr_vars c.idents; pos = n.pos })

unfoldable pub handle_close : Compiler → Outcome
handle_close c = close_block c.nesting c
