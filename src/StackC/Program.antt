-- ===== src/StackC/Program.antt =====
-- `main`: the start, the loop over the symbols, and the data section at the end.
pub mod Data
pub mod Termination
mod Tests
use mes_replacement.Prelude.{
  ℕ, zero, suc, List, [], ◌∷◌, ◌++◌, Bool, true, false, ◌||◌, ◌==◌, if◌then◌else◌, Bytes, codes,
}
use mes_replacement.StackC.Emit.{Emit, echo}
use mes_replacement.StackC.Scanner.{left}
use mes_replacement.StackC.Lexer.{Lexer, read, write, get_token, lexing}
use mes_replacement.StackC.Lexer.Quoted.{set_char}
use mes_replacement.StackC.State.{
  Compiler, Outcome, next, again, exits, ExitStatus, zero_status, one_status, sym_of, next_token,
  emit, add_function, find_ident, nr_for_string, oldest,
}
use mes_replacement.StackC.Handlers.Blocks.{
  handle_loop, handle_switch, handle_break, handle_continue, handle_if, handle_and, handle_or,
  handle_open, handle_close, find_target, jump_out, close_if, close_nest, close_block,
}
use mes_replacement.StackC.Handlers.Declare.{handle_function, handle_const, handle_variable}
use mes_replacement.StackC.Handlers.Values.{
  handle_ident, handle_number, handle_string, handle_char, handle_goto, handle_label, handle_call,
  handle_arrow, handle_operator, handle_unsupported, push_ident, arrow_to,
}
use Data.{data_section}

-- The branches of the `if` chain over `sym`.
pub data Kind : Type 0 where
  function_word const_word variable_word loop_word switch_word break_word continue_word : Kind
  if_word else_word open_brace close_brace goto_word ident number string character : Kind
  label call_symbol and_symbol or_symbol arrow_symbol operator_symbol unsupported : Kind

-- The symbols whose branch is one `fprintf` of a text with no argument.
abbrev pub operators : Bytes
operators = codes "R;$?=+-y*&|^~/%<>!abcdKMOefgijklmnopqrstx"

unfoldable pub is_one_of : Bytes → ℕ → Bool
is_one_of [] c = false
is_one_of (d ∷ rest) c = c == d || is_one_of rest c

-- The second half of the chain.
kind_of_value : ℕ → Kind
kind_of_value s =
    if is_one_of operators s
    then operator_symbol
    else if s == b'G'
    then goto_word
    else if s == b'A'
    then ident
    else if s == b'0'
    then number
    else if s == b'"'
    then string
    else if s == b'\''
    then character
    else if s == b':'
    then label
    else if s == b'h'
    then call_symbol
    else if s == b'u'
    then and_symbol
    else if s == b'v'
    then or_symbol
    else if s == b'w'
    then arrow_symbol
    else unsupported

unfoldable pub kind_of : ℕ → Kind
unfolding kind_of_value is_one_of
kind_of s =
    if s == b'F'
    then function_word
    else if s == b'C'
    then const_word
    else if s == b'V' || s == b'S'
    then variable_word
    else if s == b'L'
    then loop_word
    else if s == b'W'
    then switch_word
    else if s == b'B'
    then break_word
    else if s == b'D'
    then continue_word
    else if s == b'I'
    then if_word
    else if s == b'E'
    then else_word
    else if s == b'{'
    then open_brace
    else if s == b'}'
    then close_brace
    else kind_of_value s

-- The branch for a symbol.
unfoldable pub handle : Kind → Compiler → Outcome
handle function_word c = handle_function c
handle const_word c = handle_const c
handle variable_word c = handle_variable c
handle loop_word c = handle_loop c
handle switch_word c = handle_switch c
handle break_word c = handle_break c
handle continue_word c = handle_continue c
handle if_word c = handle_if c
handle else_word c = exits one_status c
handle open_brace c = handle_open c
handle close_brace c = handle_close c
handle goto_word c = handle_goto c
handle ident c = handle_ident c
handle number c = handle_number c
handle string c = handle_string c
handle character c = handle_char c
handle label c = handle_label c
handle call_symbol c = handle_call c
handle and_symbol c = handle_and c
handle or_symbol c = handle_or c
handle arrow_symbol c = handle_arrow c
handle operator_symbol c = handle_operator c
handle unsupported c = handle_unsupported c

-- One round of the loop.
unfoldable pub step : Compiler → Outcome
unfolding kind_of
step c = handle (kind_of (sym_of c)) c

-- How the loop ends: at the end of the source, or by a `return` inside it.
pub data Ended : Type 0 where
  finished : Compiler → Ended
  stopped : ExitStatus → Compiler → Ended
  out_of_fuel : Ended

-- The `get_token` at the end of the loop's body, which `continue` skips, and the next round.
abbrev pub after : (Compiler → Ended) → Outcome → Ended
after rest (next c) = rest (next_token c)
after rest (again c) = rest c
after rest (exits status c) = stopped status c

unfoldable pub run : ℕ → Compiler → Ended
run zero c = out_of_fuel
run (suc fuel) c =
    let rest = after (run fuel) (step c) in if sym_of c == 0 then finished c else rest

-- The copy of the intro file leaves its last byte in `cur_char`.
unfoldable pub copy_intro : Bytes → Lexer → Lexer
copy_intro [] l = l
copy_intro (b ∷ rest) l = copy_intro rest (write (echo b) (set_char b l))

abbrev pub initial : Bytes → Compiler
initial source = record {
  lex = record {
    scan = record { fin = source; cur_char = 0; cur_char_line = 1; cur_char_column = 1 };
    out = [];
    error = false;
    sym = 0;
    token = [];
    int_value = 0;
    cur_line = 0;
    cur_column = 0;
  };
  idents = [];
  pos = 0;
  statics = [];
  strings = [];
  nesting = [];
  id = 0;
  function_name = [];
}

-- What `main` does before its loop; an absent intro file is an empty one.
unfoldable pub prepare : Bytes → Bytes → Compiler
unfolding add_function copy_intro
prepare intro source =
    let c =
      add_function (codes "sys_malloc") (add_function (codes "sys_syscall") (initial source)) in
    record c { lex = get_token (read (copy_intro intro c.lex)) }

-- What `main` leaves: the written pieces and the exit status.
pub data Result : Type 0 where
  result : ExitStatus → List Emit → Result
  no_result : Result

unfoldable pub conclude : Ended → Result
conclude (finished c) =
    result (if c.lex.error then one_status else zero_status) (c.lex.out ++ data_section c)
conclude (stopped status c) = result status c.lex.out
conclude out_of_fuel = no_result

-- One round for each character that is left, and one for the end.
abbrev pub rounds : Compiler → ℕ
rounds c = suc (suc (left c.lex.scan))

unfoldable pub compile : Bytes → Bytes → Result
unfolding prepare run conclude
compile intro source = let c = prepare intro source in conclude (run (rounds c) c)

-- Unfolding this name unfolds the compiler down to its loops, for a run at a concrete source.
unfoldable pub compiling : Unit {0}
unfolding compile step handle lexing data_section find_ident add_function find_target jump_out
    nr_for_string push_ident arrow_to close_if close_nest close_block oldest handle_function
    handle_const handle_variable handle_loop handle_switch handle_break handle_continue handle_if
    handle_and handle_or handle_open handle_close handle_ident handle_number handle_string
    handle_char handle_goto handle_label handle_call handle_arrow handle_operator handle_unsupported
compiling = tt
