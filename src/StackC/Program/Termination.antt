-- ===== src/StackC/Program/Termination.antt =====
-- The rank of the lexer over the rounds of the compiler.
use mes_replacement.Prelude.{
  ℕ, zero, suc, ◌≤◌, ◌<◌, refl, ◌≢◌, inl, inr, List, [], ◌∷◌, arith, ◌==◌, Bool-cases, Bytes,
}
use mes_replacement.StackC.Lexer.{Lexer, get_token, remaining}
use mes_replacement.StackC.Lexer.Progress.{rank, get_token-rank}
use mes_replacement.StackC.State.{
  Nest, NestType, if_arm, Compiler, Outcome, next, again, exits, sym_of, next_token,
}
use mes_replacement.StackC.Handlers.Blocks.{
  handle_loop, handle_switch, handle_break, handle_continue, handle_if, handle_and, handle_or,
  handle_open, handle_close, close_if, close_nest, close_block,
}
use mes_replacement.StackC.Handlers.Declare.{handle_function, handle_const, handle_variable}
use mes_replacement.StackC.Handlers.Values.{
  handle_ident, handle_number, handle_string, handle_char, handle_goto, handle_label, handle_call,
  handle_arrow, handle_operator, handle_unsupported,
}
use mes_replacement.StackC.Program.{
  Kind, function_word, const_word, variable_word, loop_word, switch_word, break_word, continue_word,
  if_word, else_word, open_brace, close_brace, goto_word, ident, number, string, character, label,
  call_symbol, and_symbol, or_symbol, arrow_symbol, operator_symbol, unsupported, handle, step,
  Ended, finished, stopped, out_of_fuel, after, run, prepare, conclude, no_result, rounds, compile,
}

-- The branch leaves at most `n` characters, and before the `continue` has read the next symbol.
abbrev Leaves : ℕ → Outcome → Type 0
Leaves n (next c) = remaining c.lex ≤ n
Leaves n (again c) = rank c.lex ≤ n
Leaves n (exits status c) = Unit

get_token-remaining : (l : Lexer) → remaining (get_token l) ≤ remaining l
get_token-remaining l = ground (arith, get_token-rank l)

module _ (c : Compiler) where
  handle_function-Leaves : Leaves (remaining c.lex) (handle_function c)
  unfolding handle_function
  handle_function-Leaves =
      ground (arith, get_token-remaining c.lex, get_token-remaining (get_token c.lex))

  handle_const-Leaves : Leaves (remaining c.lex) (handle_const c)
  unfolding handle_const
  handle_const-Leaves =
      ground (arith, get_token-remaining c.lex, get_token-remaining (get_token c.lex))

  handle_variable-Leaves : Leaves (remaining c.lex) (handle_variable c)
  unfolding handle_variable
  handle_variable-Leaves =
      ground (arith, get_token-remaining c.lex, get_token-remaining (get_token c.lex))

  handle_loop-Leaves : Leaves (remaining c.lex) (handle_loop c)
  unfolding handle_loop
  handle_loop-Leaves = ground (arith, get_token-remaining c.lex)

  handle_switch-Leaves : Leaves (remaining c.lex) (handle_switch c)
  unfolding handle_switch
  handle_switch-Leaves = ground (arith, get_token-remaining c.lex)

  handle_if-Leaves : Leaves (remaining c.lex) (handle_if c)
  unfolding handle_if
  handle_if-Leaves = ground (arith, get_token-remaining c.lex)

  handle_and-Leaves : Leaves (remaining c.lex) (handle_and c)
  unfolding handle_and
  handle_and-Leaves = ground (arith, get_token-remaining c.lex)

  handle_or-Leaves : Leaves (remaining c.lex) (handle_or c)
  unfolding handle_or
  handle_or-Leaves = ground (arith, get_token-remaining c.lex)

  handle_arrow-Leaves : Leaves (remaining c.lex) (handle_arrow c)
  unfolding handle_arrow
  handle_arrow-Leaves = ground (arith, get_token-remaining c.lex)

  handle_break-Leaves : Leaves (remaining c.lex) (handle_break c)
  unfolding handle_break
  handle_break-Leaves = ground arith

  handle_continue-Leaves : Leaves (remaining c.lex) (handle_continue c)
  unfolding handle_continue
  handle_continue-Leaves = ground arith

  handle_ident-Leaves : Leaves (remaining c.lex) (handle_ident c)
  unfolding handle_ident
  handle_ident-Leaves = ground arith

  handle_goto-Leaves : Leaves (remaining c.lex) (handle_goto c)
  unfolding handle_goto
  handle_goto-Leaves = ground (arith, get_token-remaining c.lex)

  handle_label-Leaves : Leaves (remaining c.lex) (handle_label c)
  unfolding handle_label
  handle_label-Leaves = ground (arith, get_token-remaining c.lex)

  handle_string-Leaves : Leaves (remaining c.lex) (handle_string c)
  unfolding handle_string
  handle_string-Leaves = omega arith

close_if-Leaves : (id : ℕ) (c : Compiler) → Leaves (remaining c.lex) (close_if id c)
unfolding close_if
close_if-Leaves id c =
    ground (
      arith,
      get_token-rank c.lex,
      get_token-remaining c.lex,
      get_token-remaining (get_token c.lex),
    )

close_nest-Leaves :
    (type : NestType) (id : ℕ) (c : Compiler) → Leaves (remaining c.lex) (close_nest type id c)
unfolding close_nest
close_nest-Leaves if_arm id c = close_if-Leaves id c
close_nest-Leaves _ id c = omega arith

close_block-Leaves :
    (nests : List Nest) (c : Compiler) → Leaves (remaining c.lex) (close_block nests c)
unfolding close_block
close_block-Leaves [] c = tt
close_block-Leaves (n ∷ rest) c = close_nest-Leaves n.type n.id _

handle-Leaves : (k : Kind) (c : Compiler) → Leaves (remaining c.lex) (handle k c)
unfolding handle
handle-Leaves function_word c = handle_function-Leaves c
handle-Leaves const_word c = handle_const-Leaves c
handle-Leaves variable_word c = handle_variable-Leaves c
handle-Leaves loop_word c = handle_loop-Leaves c
handle-Leaves switch_word c = handle_switch-Leaves c
handle-Leaves break_word c = handle_break-Leaves c
handle-Leaves continue_word c = handle_continue-Leaves c
handle-Leaves if_word c = handle_if-Leaves c
handle-Leaves else_word c = tt
handle-Leaves open_brace c = unfold handle_open in omega arith
handle-Leaves close_brace c = unfold handle_close in close_block-Leaves c.nesting c
handle-Leaves goto_word c = handle_goto-Leaves c
handle-Leaves ident c = handle_ident-Leaves c
handle-Leaves number c = unfold handle_number in omega arith
handle-Leaves string c = handle_string-Leaves c
handle-Leaves character c = unfold handle_char in omega arith
handle-Leaves label c = handle_label-Leaves c
handle-Leaves call_symbol c = unfold handle_call in omega arith
handle-Leaves and_symbol c = handle_and-Leaves c
handle-Leaves or_symbol c = handle_or-Leaves c
handle-Leaves arrow_symbol c = handle_arrow-Leaves c
handle-Leaves operator_symbol c = unfold handle_operator in omega arith
handle-Leaves unsupported c = unfold handle_unsupported in omega arith

step-Leaves : (c : Compiler) → Leaves (remaining c.lex) (step c)
unfolding step
step-Leaves c = handle-Leaves _ c

after-ne-out_of_fuel :
    (rest : Compiler → Ended) (n : ℕ) (o : Outcome)
    → Leaves n o
    → ((c : Compiler) → rank c.lex ≤ n → rest c ≢ out_of_fuel)
    → after rest o ≢ out_of_fuel
after-ne-out_of_fuel rest n (next c) h runs =
    runs (next_token c) (omega (arith, get_token-rank c.lex))
after-ne-out_of_fuel rest n (again c) h runs = runs c h
after-ne-out_of_fuel rest n (exits status c) h runs = λ e. cc

run-ne-out_of_fuel : (fuel : ℕ) (c : Compiler) → rank c.lex < fuel → run fuel c ≢ out_of_fuel
unfolding run
run-ne-out_of_fuel zero c h = absurd (omega arith)
run-ne-out_of_fuel (suc fuel) c h = elim (Bool-cases (sym_of c == 0)) [
  | inl end ↦ rw end (λ e. cc)
  | inr live ↦
      let fewer : remaining c.lex < fuel = ground arith in
      rw live (
        after-ne-out_of_fuel (run fuel) (remaining c.lex) (step c) (step-Leaves c)
          λ k le. run-ne-out_of_fuel fuel k (omega (arith, le)))
]

conclude-ne-no_result : (e : Ended) → e ≢ out_of_fuel → conclude e ≢ no_result
unfolding conclude
conclude-ne-no_result (finished c) h = λ e. cc
conclude-ne-no_result (stopped status c) h = λ e. cc
conclude-ne-no_result out_of_fuel h = absurd (h refl)

rank-lt-rounds : (l : Lexer) → rank l < suc (suc (remaining l))
rank-lt-rounds l = ground arith

-- The compiler ends with an exit status and an output on every intro file and every source.
pub compile-ne-no_result : (intro source : Bytes) → compile intro source ≢ no_result
unfolding compile
compile-ne-no_result intro source =
    let c = prepare intro source in
    conclude-ne-no_result (run (rounds c) c)
      (run-ne-out_of_fuel (rounds c) c (rank-lt-rounds c.lex))
