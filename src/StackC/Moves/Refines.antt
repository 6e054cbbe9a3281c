-- ===== src/StackC/Moves/Refines.antt =====
-- The branches of the compiler's loop and its rounds, as moves.
use mes_replacement.Prelude.{◌≡◌, refl, [], Bool, true}
use mes_replacement.StackC.Emit.{push_number, push_char, call, operator}
use mes_replacement.StackC.State.{Compiler, sym_of, token_of}
use mes_replacement.StackC.Handlers.Blocks.{handle_open, handle_close}
use mes_replacement.StackC.Handlers.Values.{
  handle_number, handle_string, handle_char, handle_call, handle_operator, handle_unsupported,
  first_char,
}
use mes_replacement.StackC.Program.{
  Kind, function_word, const_word, variable_word, loop_word, switch_word, break_word, continue_word,
  if_word, else_word, open_brace, close_brace, goto_word, ident, number, string, character, label,
  call_symbol, and_symbol, or_symbol, arrow_symbol, operator_symbol, unsupported, kind_of, handle,
  step,
}
use mes_replacement.StackC.Moves.{opens_block, writes, pushes_string, one}
use mes_replacement.StackC.Moves.Ends.{Ends, flag_error}
use mes_replacement.StackC.Moves.Declares.{
  handle_function-Ends, handle_const-Ends, handle_variable-Ends,
}
use mes_replacement.StackC.Moves.Blocks.{
  handle_loop-Ends, handle_switch-Ends, handle_if-Ends, handle_and-Ends, handle_or-Ends,
  handle_break-Ends, handle_continue-Ends, close_block-Ends,
}
use mes_replacement.StackC.Moves.Values.{
  handle_ident-Ends, handle_arrow-Ends, handle_goto-Ends, handle_label-Ends,
}

module _ (strict : Bool) where
  handle-Ends :
      (k : Kind) (c : Compiler)
      → (strict ≡ true → k ≡ function_word → c.nesting ≡ [])
      → Ends strict c (handle k c)
  unfolding handle
  handle-Ends function_word c flat = handle_function-Ends strict c (λ s. flat s refl)
  handle-Ends const_word c flat = handle_const-Ends strict c
  handle-Ends variable_word c flat = handle_variable-Ends strict c
  handle-Ends loop_word c flat = handle_loop-Ends strict c
  handle-Ends switch_word c flat = handle_switch-Ends strict c
  handle-Ends break_word c flat = handle_break-Ends strict c
  handle-Ends continue_word c flat = handle_continue-Ends strict c
  handle-Ends if_word c flat = handle_if-Ends strict c
  handle-Ends else_word c flat = tt
  handle-Ends open_brace c flat = unfold handle_open in one opens_block
  handle-Ends close_brace c flat = unfold handle_close in close_block-Ends strict c
  handle-Ends goto_word c flat = handle_goto-Ends strict c
  handle-Ends ident c flat = handle_ident-Ends strict c
  handle-Ends number c flat = unfold handle_number in one (writes (push_number c.lex.int_value) tt)
  handle-Ends string c flat = unfold handle_string in one (pushes_string (token_of c))
  handle-Ends character c flat =
      unfold handle_char in one (writes (push_char (first_char (token_of c))) tt)
  handle-Ends label c flat = handle_label-Ends strict c
  handle-Ends call_symbol c flat = unfold handle_call in one (writes (call c.pos) tt)
  handle-Ends and_symbol c flat = handle_and-Ends strict c
  handle-Ends or_symbol c flat = handle_or-Ends strict c
  handle-Ends arrow_symbol c flat = handle_arrow-Ends strict c
  handle-Ends operator_symbol c flat =
      unfold handle_operator in one (writes (operator (sym_of c)) tt)
  handle-Ends unsupported c flat = unfold handle_unsupported in flag_error strict c

  -- One round of the loop is a sequence of moves. In the strict machine a `void` stands outside
  -- every block.
  pub step-Ends :
      (c : Compiler)
      → (strict ≡ true → kind_of (sym_of c) ≡ function_word → c.nesting ≡ [])
      → Ends strict c (step c)
  unfolding step
  step-Ends c flat = handle-Ends (kind_of (sym_of c)) c flat
